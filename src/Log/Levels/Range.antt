-- ===== src/Log/Levels/Range.antt =====
-- The level stays between LOG_EMERG and LOG_PVERB.
use timeseries_database.Base.{
  ℕ, zero, suc, ◌≤◌, ◌≡◌, refl, Bool, true, false, Option, none, some, if◌then◌else◌, le→ltb, subst,
  not, ltb→lt, arith, ltb,
}
use timeseries_database.Base.Int.{ℤ, pos, negsuc}
use timeseries_database.Log.{
  Logger, Printed, log_emerg, log_pverb, lt_int, is_negative, stderr_fileno, log, log_safe,
  log_stderr, log_stderr_safe, count_error, log_length, stderr_length, safe_length,
}
use timeseries_database.Log.Levels.{
  clamp, succ_int, pred_int, is_stderr, log_init, log_reopen, log_level_up, log_level_down,
  log_level_set, log_loggable,
}

-- A call of log.c on the logger, at what the C library returns in it.
pub data Step : Logger → Logger → Type 0 where
  level_up :
      {l l' : Logger} (text : ℤ) (written : Bool)
      → log_level_up text written l ≡ some l'
      → Step l l'
  level_down :
      {l l' : Logger} (text : ℤ) (written : Bool)
      → log_level_down text written l ≡ some l'
      → Step l l'
  level_set :
      {l l' : Logger} (level : ℤ) (io : Printed) (aborts : Bool)
      → log_level_set level io l ≡ some (aborts, l')
      → Step l l'
  reopen :
      {l l' : Logger} (opened text : ℤ) (written : Bool)
      → log_reopen opened text written l ≡ some l'
      → Step l l'
  print :
      {l l' : Logger} (panic : Bool) (io : Printed) (aborts : Bool)
      → log panic io l ≡ some (aborts, l')
      → Step l l'

-- The loggers after `log_init`.
pub data IsReachable : Logger → Type 0 where
  init :
      (l : Logger) {l' : Logger} (level : ℤ) (named : Bool) (opened text : ℤ) (written ok : Bool)
      → log_init level named opened text written l ≡ some (ok, l')
      → IsReachable l'
  next : (l : Logger) {l' : Logger} → IsReachable l → Step l l' → IsReachable l'

-- From 0 to 11.
abbrev pub IsLevel : ℤ → Type 0
IsLevel (pos n) = n ≤ 11
IsLevel (negsuc n) = ⊥

clamp-IsLevel : (level : ℤ) → IsLevel (clamp level)
clamp-IsLevel (pos n) = small n (ltb n 11) refl
  where
    small : (n : ℕ) (b : Bool) → ltb n 11 ≡ b → IsLevel (clamp (pos n))
    small n true e = rw (e, le→ltb n 0 (omega arith)) (omega (arith, ltb→lt n 11 e))
    small n false e = rw e (omega arith)
clamp-IsLevel (negsuc n) = omega arith

-- A result, if there is one, has a level in the range.
abbrev Holds : {A : Type 0} → (A → Logger) → Option A → Type 0
Holds get none = Unit
Holds get (some a) = IsLevel (get a).level

abbrev Keeps : Option Logger → Type 0
Keeps = Holds (λ l. l)

abbrev Keeps₂ : Option (Bool × Logger) → Type 0
Keeps₂ = Holds (λ r. r.1)

count_error-IsLevel :
    (written : Bool) (l : Logger) → IsLevel l.level → IsLevel (count_error written l).level
unfolding count_error
count_error-IsLevel true l ok = ok
count_error-IsLevel false l ok = ok

-- What a write to the log leaves, if the text fits.
abbrev told : Option ℕ → Bool → Logger → Option Logger
told length written l = elim length [ none ↦ none | some _ ↦ some (count_error written l) ]

printed-Keeps :
    (length : Option ℕ) (written : Bool) (l : Logger)
    → IsLevel l.level
    → Keeps (told length written l)
printed-Keeps none written l ok = record {}
printed-Keeps (some n) written l ok = count_error-IsLevel written l ok

log_safe-Keeps :
    (text : ℤ) (written : Bool) (l : Logger) → IsLevel l.level → Keeps (log_safe text written l)
unfolding log_safe log_stderr_safe
log_safe-Keeps text written l ok =
    elim (is_negative l.fd) as (λ b. Keeps (if b then some l else log_stderr_safe text written l)) [
      | true ↦ ok
      | false ↦ printed-Keeps (safe_length text) written l ok
    ]

log-Keeps : (panic : Bool) (io : Printed) (l : Logger) → IsLevel l.level → Keeps₂ (log panic io l)
unfolding log
log-Keeps panic io l ok = print (is_negative l.fd) (log_length io.date io.millis io.place io.text)
  where
    print :
        (closed : Bool) (length : Option ℕ)
        → Keeps₂ (
            if closed
            then some (false, l)
            else elim length [ none ↦ none | some _ ↦ some (panic, count_error io.written l) ])
    print true length = ok
    print false none = record {}
    print false (some n) = count_error-IsLevel io.written l ok

succ-IsLevel :
    (level : ℤ) → IsLevel level → lt_int level log_pverb ≡ true → IsLevel (succ_int level)
succ-IsLevel (pos n) ok below = omega (arith, ltb→lt n 11 below)
succ-IsLevel (negsuc n) ok below = absurd ok

pred-IsLevel :
    (level : ℤ) → IsLevel level → lt_int log_emerg level ≡ true → IsLevel (pred_int level)
pred-IsLevel (pos zero) ok above = absurd (omega (arith, ltb→lt 0 0 above))
pred-IsLevel (pos (suc n)) ok above = omega arith
pred-IsLevel (negsuc n) ok above = absurd ok

-- A level that is moved and told, or left.
moved-Keeps :
    (moves : Bool) (text : ℤ) (written : Bool) (l l' : Logger)
    → IsLevel l.level
    → (moves ≡ true → IsLevel l'.level)
    → Keeps (if moves then log_safe text written l' else some l)
moved-Keeps true text written l l' ok k = log_safe-Keeps text written l' (k refl)
moved-Keeps false text written l l' ok k = ok

reopen-Keeps :
    (opened text : ℤ) (written : Bool) (l : Logger)
    → IsLevel l.level
    → Keeps (log_reopen opened text written l)
unfolding log_reopen log_stderr_safe
reopen-Keeps opened text written l ok = both (is_stderr l.fd) (is_negative opened)
  where
    both :
        (stderr failed : Bool)
        → Keeps (
            if stderr
            then some l
            else (if failed
                then log_stderr_safe text written (record l { fd = opened })
                else some (record l { fd = opened })))
    both true _ = ok
    both false true = printed-Keeps (safe_length text) written (record l { fd = opened }) ok
    both false false = ok

init-Keeps :
    (level : ℤ) (named : Bool) (opened text : ℤ) (written : Bool) (l : Logger)
    → Keeps₂ (log_init level named opened text written l)
unfolding log_init log_stderr
init-Keeps level named opened text written l = both named (is_negative opened) (stderr_length text)
  where
    l' : Logger
    l' = record l { level = clamp level; fd = opened }

    both :
        (named failed : Bool) (length : Option ℕ)
        → Keeps₂ (
            if named
            then (if failed
                then elim (told length written l') [ none ↦ none | some l'' ↦ some (false, l'') ]
                else some (true, l'))
            else some (true, record l { level = clamp level; fd = stderr_fileno }))
    both true true none = record {}
    both true true (some n) = count_error-IsLevel written l' (clamp-IsLevel level)
    both true false _ = clamp-IsLevel level
    both false _ _ = clamp-IsLevel level

Step-IsLevel : (l l' : Logger) → IsLevel l.level → Step l l' → IsLevel l'.level
unfolding log_level_up log_level_down log_level_set
Step-IsLevel l l' ok (level_up text written e) = subst Keeps e (
    moved-Keeps (lt_int l.level log_pverb) text written l (record l { level = succ_int l.level }) ok
      (succ-IsLevel l.level ok))
Step-IsLevel l l' ok (level_down text written e) = subst Keeps e (
    moved-Keeps (lt_int log_emerg l.level) text written l (record l { level = pred_int l.level }) ok
      (pred-IsLevel l.level ok))
Step-IsLevel l l' ok (level_set level io aborts e) =
    subst Keeps₂ e (log-Keeps false io (record l { level = clamp level }) (clamp-IsLevel level))
Step-IsLevel l l' ok (reopen opened text written e) =
    subst Keeps e (reopen-Keeps opened text written l ok)
Step-IsLevel l l' ok (print panic io aborts e) = subst Keeps₂ e (log-Keeps panic io l ok)

reachable-IsLevel : (l : Logger) → IsReachable l → IsLevel l.level
reachable-IsLevel l' (init l level named opened text written ok e) =
    subst Keeps₂ e (init-Keeps level named opened text written l)
reachable-IsLevel l' (next l before step) = Step-IsLevel l l' (reachable-IsLevel l before) step

-- After log_init, and after any calls of log_level_up, log_level_down, log_level_set, log_reopen
-- and _log, whatever the C library returns in them, the level lies between LOG_EMERG and
-- LOG_PVERB, and a message at LOG_EMERG is loggable.
pub log_level-IsLevel :
    (l : Logger) → IsReachable l → IsLevel l.level × (log_loggable log_emerg l ≡ true)
unfolding log_loggable
log_level-IsLevel l reached =
    (reachable-IsLevel l reached, urgent l.level (reachable-IsLevel l reached))
  where
    urgent : (level : ℤ) → IsLevel level → not (lt_int level log_emerg) ≡ true
    urgent (pos n) ok = rw (le→ltb n 0 (omega arith)) refl
    urgent (negsuc n) ok = absurd ok

-- ===== src/Common/PreLive.antt =====
-- common/prelive.py: the runner of the pre-live checks. Names of checks are numbers; details,
-- evidence and times are left out. A probe that raises is `raised`.
pub mod Laws
use ai_trading_system.Base.{
  ℕ, Bool, true, false, ◌&&◌, Option, none, some, List, [], ◌∷◌, if◌then◌else◌,
}
use ai_trading_system.Broker.{Call, returned, raised}

-- `other_status` is a text outside the vocabulary.
pub data Status : Type 0 where
  pass warn fail other_status : Status

pub record CheckResult : Type 0 where
  pub name : ℕ
  pub status : Status

-- What a probe may hand back; an empty tuple has no first element.
pub data Raw : Type 0 where
  result : CheckResult → Raw
  flag : Bool → Raw
  tuple : Option Status → Raw
  unrecognized : Raw

abbrev check : ℕ → Status → CheckResult
check n s = record { name = n; status = s }

-- `_coerce`; `raw[0]` of an empty tuple raises
unfoldable pub coerce : ℕ → Raw → Call CheckResult
coerce n (result cr) = returned (record cr { name = n })
coerce n (flag b) = returned (check n (if b then pass else fail))
coerce n (tuple (some s)) = returned (check n s)
coerce n (tuple none) = raised
coerce n unrecognized = returned (check n fail)

-- the body of the `try`, with its handler
unfoldable pub run_check : ℕ → Call Raw → CheckResult
unfolding coerce
run_check n raised = check n fail
run_check n (returned raw) = elim (coerce n raw) [ returned cr ↦ cr | raised ↦ check n fail ]

unfoldable pub results : List (ℕ × Call Raw) → List CheckResult
unfolding run_check
results [] = []
results ((n, fn) ∷ checks) = run_check n fn ∷ results checks

-- `c.status in (PASS, WARN)`
abbrev pub is_ok : Status → Bool
is_ok pass = true
is_ok warn = true
is_ok _ = false

abbrev pub is_fail : Status → Bool
is_fail fail = true
is_fail _ = false

abbrev pub is_warn : Status → Bool
is_warn warn = true
is_warn _ = false

unfoldable pub all_ok : List CheckResult → Bool
all_ok [] = true
all_ok (c ∷ cs) = is_ok c.status && all_ok cs

-- the names of the checks whose status satisfies a test
unfoldable pub names_where : (Status → Bool) → List CheckResult → List ℕ
names_where test [] = []
names_where test (c ∷ cs) =
    let rest = names_where test cs in if test c.status then c.name ∷ rest else rest

pub record Run : Type 0 where
  pub overall : Status
  pub checks : List CheckResult
  pub failed : List ℕ
  pub warned : List ℕ

-- `run_all`; what the persister does, or raises, does not reach the result
unfoldable pub run_all : List (ℕ × Call Raw) → Run
unfolding results all_ok names_where
run_all checks =
    let cs = results checks in
    record {
      overall = if all_ok cs then pass else fail;
      checks = cs;
      failed = names_where is_fail cs;
      warned = names_where is_warn cs;
    }

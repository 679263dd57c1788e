-- ===== src/Risk/Capital/Stale.antt =====
-- The cache of `get_capital` of risk/capital.py across a change of the mode.
use ai_trading_system.Base.{◌≡◌, refl, Bool, true, false, Option, none, some, or_default}
use ai_trading_system.Base.Int.{ℤ, ◌+ℤ◌, pos, max_ℤ}
use ai_trading_system.Risk.Capital.{
  Setting, Reads, get_capital, use_static, cached, segment_of, realized_of, scope_of,
}

cached_again :
    (cache : Option ℤ) (refresh : Bool) (fresh fresh' : ℤ)
    → (cached (cached cache refresh fresh).1 false fresh').0 ≡ (cached cache refresh fresh).0
cached_again none refresh fresh fresh' = refl
cached_again (some c) true fresh fresh' = refl
cached_again (some c) false fresh fresh' = refl

refreshed : (cache : Option ℤ) (fresh : ℤ) → (cached cache true fresh).0 ≡ fresh
refreshed none fresh = refl
refreshed (some c) fresh = refl

-- The cache does not know the mode: after a read that compounds the paper capital, a read in live
-- that is not asked to refresh answers with the same paper amount, whatever the broker's margins
-- are; one that is asked to refresh answers with the margins.
pub get_capital-get_capital :
    (paper live : Setting) (reads reads' : Reads) (refresh : Bool) (cache : Option ℤ)
    → use_static paper ≡ true
    → paper.compound ≡ true
    → use_static live ≡ false
    → let (amount, cache') = get_capital paper reads refresh cache in
      ((get_capital live reads' false cache').0 ≡ amount)
      × ((get_capital live reads' true cache').0
          ≡ segment_of reads'.equity +ℤ segment_of reads'.commodity)
unfolding get_capital
get_capital-get_capital paper live reads reads' refresh cache p c l =
    let fresh = max_ℤ (pos 0) (
      pos (or_default paper.static_capital 0)
      +ℤ realized_of (reads.realized (scope_of paper.mode_provider))) in
    rw (p, c, l) (cached_again cache refresh fresh _, refreshed (cached cache refresh fresh).1 _)

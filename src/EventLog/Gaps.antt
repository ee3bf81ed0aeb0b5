-- ===== src/EventLog/Gaps.antt =====
-- Texts of RFC3339Nano are not in the order of their times: a whole second has no point before its Z.
use go_blueprint.Prelude.{ℕ, ◌+◌, ◌*◌, ◌/◌, ◌<◌, ◌≡◌, refl, false, [], ◌∷◌, ◌++◌, arith, ◌==◌, Text}
use go_blueprint.Prelude.{◌%◌}
use go_blueprint.EventLog.{Codec, stamp, less}

less-append : (p s t : Text) → less (p ++ s) (p ++ t) ≡ less s t
unfolding less
less-append [] s t = refl
less-append (c ∷ p) s t = ground (arith, less-append p s t)

-- After a whole second, FetchSince takes no event of that second for a later one.
whole_second_hides :
    (codec : Codec) (s f : ℕ)
    → 0 < f
    → f < 1_000_000_000
    → less (stamp codec (s * 1_000_000_000)) (stamp codec (s * 1_000_000_000 + f)) ≡ false
unfolding stamp less
whole_second_hides codec s f some_part below =
    let q : s * 1_000_000_000 / 1_000_000_000 ≡ s = omega arith in
    let r : s * 1_000_000_000 % 1_000_000_000 ≡ 0 = omega arith in
    let q' : (s * 1_000_000_000 + f) / 1_000_000_000 ≡ s = omega (arith, below) in
    let r' : (s * 1_000_000_000 + f) % 1_000_000_000 ≡ f = omega (arith, below) in
    let rest : (f == 0) ≡ false = ground (arith, some_part) in
    rw (q, r, q', r', rest, stamp) (less-append (codec.second_text s) (b'Z' ∷ []) _)

-- ===== src/Prelude/Pairs.antt =====
-- Two texts written as one and read back, for codecs in tests.
use go_blueprint.Prelude.Strings.{Text}
use Prim.Native.Nat.{zero, suc}
use mathlib.Core.Path.{◌≡◌, refl}
use mathlib.Core.List.{[], ◌∷◌}

unfoldable pub write_two : Text → Text → Text
write_two [] t = 0 ∷ t
write_two (c ∷ s) t = suc c ∷ write_two s t

unfoldable pub read_two : Text → Text × Text
read_two [] = ([], [])
read_two (zero ∷ t) = ([], t)
read_two (suc c ∷ s) = (c ∷ (read_two s).0, (read_two s).1)

pub read-write_two : (s t : Text) → read_two (write_two s t) ≡ (s, t)
unfolding read_two write_two
read-write_two [] t = refl
read-write_two (c ∷ s) t = rw (read-write_two s t) refl

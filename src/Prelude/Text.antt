-- ===== src/Prelude/Text.antt =====
-- Go strings are byte slices; a literal is ASCII, so its bytes are its code points.
use Prim.Native.Nat.{ℕ, ◌-◌}
use Prim.Native.Char.{code}
use Prim.Native.String.{String}
use mathlib.Core.Path.{◌≡◌, refl}
use mathlib.Core.Logic.{◌↔◌}
use mathlib.Core.Bool.{Bool, true, false, ◌&&◌, ◌||◌}
use mathlib.Core.List.{[], ◌∷◌}
use native.Mathlib.Omega.{arith}
use musi_flac.Prelude.Binary.{Bytes}
use musi_flac.Prelude.Tests.{◌==◌, leb, if◌then◌else◌}

abbrev pub codes : String → Bytes
codes String.[] = []
codes (String.◌∷◌ c s) = code c ∷ codes s

-- `==` on strings.
infix 50 ◌=ₛ◌
unfoldable pub ◌=ₛ◌ : Bytes → Bytes → Bool
[] =ₛ [] = true
(a ∷ s) =ₛ (b ∷ t) = a == b && (s =ₛ t)
_ =ₛ _ = false

pub =ₛ_iff : (s t : Bytes) → ((s =ₛ t) ≡ true) ↔ (s ≡ t)
unfolding ◌=ₛ◌
=ₛ_iff (a ∷ s) (b ∷ t) = ground (arith, =ₛ_iff s t)
=ₛ_iff _ _ = ground arith

pub =ₛ_self : (s : Bytes) → (s =ₛ s) ≡ true
=ₛ_self s = (=ₛ_iff s s).1 refl

-- `strings.ToUpper` on one ASCII byte; a byte of a longer UTF-8 sequence is kept.
unfoldable pub to_upper_byte : ℕ → ℕ
to_upper_byte c = if leb b'a' c && leb c b'z' then c - 32 else c

unfoldable pub to_upper : Bytes → Bytes
unfolding to_upper_byte
to_upper [] = []
to_upper (c ∷ s) = to_upper_byte c ∷ to_upper s

-- Capital letters, digits, blanks and underscores.
abbrev pub is_capital : Bytes → Bool
is_capital [] = true
is_capital (c ∷ s) =
    ((leb 65 c && leb c 90) || (leb 48 c && leb c 57) || c == 32 || c == 95) && is_capital s

-- `strings.ToUpper` leaves such a text as it is.
abbrev pub KeepsCapitals : (Bytes → Bytes) → Type 0
KeepsCapitals upper = (s : Bytes) → is_capital s ≡ true → upper s ≡ s

pub to_upper-KeepsCapitals : KeepsCapitals to_upper
unfolding to_upper to_upper_byte
to_upper-KeepsCapitals [] h = refl
to_upper-KeepsCapitals (c ∷ s) h = ground (arith, to_upper-KeepsCapitals s (ground (arith, h)))

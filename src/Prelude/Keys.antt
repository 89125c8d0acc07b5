-- ===== src/Prelude/Keys.antt =====
-- Keys of maps: a type with a Boolean equality.
use Prim.Native.Nat.{ℕ}
use Prim.Native.String.{String}
use mathlib.Core.Path.{◌≡◌}
use mathlib.Core.Logic.{◌↔◌}
use mathlib.Core.Bool.{Bool, true}
use text.Mathlib.Text.{◌==◌ as str_eq}
use text.Mathlib.TextEquality.{eq_iff}
use myblockchain.Prelude.Tests.{◌==◌, ==_iff}

pub record Eq {ℓ} (K : Type ℓ) : Type ℓ where
  pub beq : K → K → Bool
  pub beq_iff : (a b : K) → (beq a b ≡ true) ↔ (a ≡ b)

instance abbrev pub nat_key : Eq ℕ
nat_key = record { beq = ◌==◌; beq_iff = ==_iff }

instance abbrev pub string_key : Eq String
string_key = record { beq = str_eq; beq_iff = eq_iff }

-- ===== src/Common/Ledger.antt =====
-- How often a kernel object was taken and given back. A second free shows as more puts than gets.
use Prim.Native.Nat.{ℕ, ◌+◌}
use mathlib.Core.Path.{◌≡◌}

pub record Ledger : Type 0 where
  pub gets : ℕ
  pub puts : ℕ

abbrev pub gain : ℕ → Ledger → Ledger
gain n l = record l { gets = l.gets + n }

abbrev pub give : ℕ → Ledger → Ledger
give n l = record l { puts = l.puts + n }

abbrev pub nothing : Ledger
nothing = record { gets = 0; puts = 0 }

-- Exactly `n` of them are held now.
abbrev pub Holds : ℕ → Ledger → Type 0
Holds n l = l.gets ≡ l.puts + n

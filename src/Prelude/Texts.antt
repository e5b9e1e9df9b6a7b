-- ===== src/Prelude/Texts.antt =====
-- Text as the list of its bytes.
use Prim.Native.Char.{code}
use Prim.Native.Nat.{ℕ}
use Prim.Native.String.{String}
use mathlib.Core.List.{List, [], ◌∷◌}
use mathlib.Core.Bool.{Bool, true, false, ◌&&◌, ◌||◌}
use kernel_udp_tcp.Prelude.Tests.{◌==◌}

abbrev pub Text : Type 0
Text = List ℕ

-- A literal, which is ASCII.
abbrev pub bytes_of : String → Text
bytes_of String.[] = []
bytes_of (String.◌∷◌ c rest) = code c ∷ bytes_of rest

abbrev pub starts_with : Text → Text → Bool
starts_with [] text = true
starts_with (c ∷ cs) [] = false
starts_with (c ∷ cs) (t ∷ text) = c == t && starts_with cs text

abbrev pub contains : Text → Text → Bool
contains part [] = starts_with part []
contains part (t ∷ text) = starts_with part (t ∷ text) || contains part text

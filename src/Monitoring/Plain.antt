-- ===== src/Monitoring/Plain.antt =====
-- The names of metrics and labels that src/monitoring.rs gives: small letters and underscores, at
-- least one, which are names by the rules of the prometheus crate.
use Prim.Native.Char.{code}
use Prim.Native.String.{String, [], ◌∷◌}
use manta_indexer.Prelude.{Bool, true, false, ◌&&◌, ◌||◌, leb, ◌==◌}

abbrev pub letters : String → Bool
letters [] = true
letters (c ∷ s) = ((leb 97 (code c) && leb (code c) 122) || code c == 95) && letters s

unfoldable pub plain : String → Bool
plain [] = false
plain (c ∷ s) = letters (c ∷ s)

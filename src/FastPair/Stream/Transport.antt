-- ===== src/FastPair/Stream/Transport.antt =====
-- The reading task, from the bytes of the transport to the frames that it hands on.
use bt_daemon.Base.{ℕ, List, [], ◌∷◌, ◌++◌, Option, some}

-- The bytes of reads, none of which fails or is empty.
abbrev pub reads_of : List (ℕ × List ℕ) → List (Option (List ℕ))
reads_of [] = []
reads_of ((b, bytes) ∷ reads) = some (b ∷ bytes) ∷ reads_of reads

abbrev pub bytes_of : List (ℕ × List ℕ) → List ℕ
bytes_of [] = []
bytes_of ((b, bytes) ∷ reads) = (b ∷ bytes) ++ bytes_of reads

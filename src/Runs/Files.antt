-- ===== src/Runs/Files.antt =====
-- Writes and a truncation of a small file.
use pglite_go.Base.{◌≡◌, [], ◌∷◌, ◌++◌, none, arith, codes}
use pglite_go.Base.Outcome.{ok}
use pglite_go.Wire.Bytes.{pos}
use pglite_go.Vfs.File.{Node, read_at, write_at, truncate}
use pglite_go.Vfs.Content.{read_at-write_at, write_at_content, write_at-truncate}

abbrev secret : Node
secret = record { content = codes "secret"; spare = 0 ∷ 0 ∷ [] }

-- Behind the end, past the capacity.
read_at-write_at_example :
    (n' : Node) × (write_at secret (codes "xy") (pos 12) ≡ ok (n', (2, none)))
    × (read_at n'.content 2 (pos 12) ≡ (codes "xy", none))
read_at-write_at_example = read_at-write_at secret (codes "xy") 12 (omega arith) (omega arith)

write_at_content_example :
    (n' : Node) × (write_at secret (codes "xyz") (pos 4) ≡ ok (n', (3, none)))
    × (n'.content ≡ codes "secr" ++ (codes "xyz" ++ []))
write_at_content_example = write_at_content secret (codes "xyz") 4 (omega arith) (omega arith)

write_at-truncate_example :
    (n' : Node) × (n'' : Node) × (truncate secret (pos 1) ≡ ok n')
    × (n'.content ≡ codes "s")
    × (write_at n' (codes "!") (pos 4) ≡ ok (n'', (1, none)))
    × (n''.content ≡ codes "secr" ++ codes "!")
write_at-truncate_example =
    write_at-truncate secret (codes "!") 1 4 (omega arith) (omega arith) (omega arith) (omega arith)

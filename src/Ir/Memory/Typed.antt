-- ===== src/Ir/Memory/Typed.antt =====
-- Typed loads and stores on the memory: `load_with_signature` and `store`.
use whale.Prelude.{ℕ, ◌-◌, true, false, List, Option}
use whale.Ir.{Ty}
use whale.Ir.Memory.State.{Pointer, Value}
use whale.Ir.Memory.Monad.{Host, M, ◌>>=◌, ◌>>◌, reads, allocation_at, put_allocation}
use whale.Ir.Memory.Access.{access}
use whale.Ir.Memory.Allocate.{charge}
use whale.Ir.Memory.Bytes.{replace_fragments}
use whale.Ir.Memory.Encoding.{layout, load_value, encode_value, write_each}

unfoldable pub load_with_signature : Pointer → Ty → ℕ → Option Ty → M Value
load_with_signature p t align signature = do
  l ← reads (λ m. layout t)
  (id, start, end) ← reads (λ m. access m p l.size align false)
  charge (end - start)
  reads (λ m. load_value m id start t signature)

-- The byte writes of `store`.
unfoldable pub write_encoded : ℕ → List (ℕ × ℕ) → M (Unit {0})
write_encoded id bytes = do a ← allocation_at id; put_allocation id (write_each bytes a)

unfoldable pub store : Host → Pointer → Ty → Value → ℕ → M (Unit {0})
store host p t v align = do
  l ← reads (λ m. layout t)
  (id, start, end) ← reads (λ m. access m p l.size align true)
  (bytes, fragments) ← reads (λ m. encode_value t v start)
  charge (end - start)
  replace_fragments host id start end fragments
  write_encoded id bytes

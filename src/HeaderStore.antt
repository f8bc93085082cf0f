-- ===== src/HeaderStore.antt =====
-- libhpack/header_store.c and header_store.h: the list of the fields that a parser emits, or that
-- an encoder is to render, with the callback `emit` that `hpack_header_store_init` sets.
use libhpack.Common.{ℕ, ◌-◌, List, [], ◌∷◌, ◌++◌, ◌==◌, if◌then◌else◌, Option, none, some}
use libhpack.Common.Ret.{Ret, ok, not_found}
use libhpack.HeaderField
use libhpack.HeaderField.{Field}

unfoldable pub init : Ret × List Field
init = (ok, [])

-- `add`: a copy of the field at the tail of the list. Memory is taken to be granted.
unfoldable pub add : List Field → Field → Ret × List Field
unfolding HeaderField.init HeaderField.copy
add store field = (ok, store ++ ((HeaderField.copy HeaderField.init.1 field).1 ∷ []))

-- `hpack_header_store_emit`, through the callback.
unfoldable pub emit : List Field → Field → Ret × List Field
unfolding add
emit store field = add store field

-- `hpack_header_store_get_n`, for a number that is not 0: the field at that place, from 1 on.
unfoldable pub get_n : List Field → ℕ → Ret × Option Field
get_n [] num = (not_found, none)
get_n (f ∷ fs) num = let rest = get_n fs (num - 1) in if num - 1 == 0 then (ok, some f) else rest

-- ===== src/HeaderField/Tests.antt =====
-- The theorems on header fields at concrete fields.
use libhpack.Common.{[], ◌∷◌, true, false}
use libhpack.HeaderField.{Field}

abbrev host : Field
host = record {
  flags = record { name = 1; value = 2; rep = 3 };
  name = record { bytes = 104 ∷ 111 ∷ 115 ∷ 116 ∷ []; has_memory = true };
  value = record { bytes = 97 ∷ []; has_memory = true };
}

abbrev path : Field
path = record {
  flags = record { name = 2; value = 2; rep = 5 };
  name = record { bytes = 47 ∷ []; has_memory = true };
  value = record { bytes = []; has_memory = false };
}

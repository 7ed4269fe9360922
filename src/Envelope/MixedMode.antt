-- ===== src/Envelope/MixedMode.antt =====
-- common/mixed_mode_io.py: metadata and binary data in one payload. JSON is a parameter, together with
-- its UTF-8 form.
use rudp_agent_stack.Base.{
  ℕ, ◌+◌, ◌≡◌, Option, none, some, ◌++◌, ok, err, ◌>>=◌, ltb, if◌then◌else◌, length, take, drop,
}
use rudp_agent_stack.Constants.{meta_len_size}
use rudp_agent_stack.Exceptions.{
  Py, struct_error, value_error, no_metadata_length, payload_incomplete, invalid_metadata,
}
use rudp_agent_stack.Bytes.{Bytes, fits, be32, read32}

-- json.dumps(metadata).encode("utf-8") and json.loads(meta_bytes.decode("utf-8"))
pub record Json : Type 1 where
  pub Metadata : Type 0
  pub dumps : Metadata → Bytes
  pub loads : Bytes → Option Metadata

-- What json documents: loads reads what dumps wrote.
pub record ReadsBack (j : Json) : Type 0 where
  pub loads-dumps : (m : j.Metadata) → j.loads (j.dumps m) ≡ some m

-- struct.pack("!I", meta_len)
abbrev pub pack_meta_len : ℕ → Py Bytes
pack_meta_len n = if fits 32 n then ok (be32 n) else err struct_error

module _ (j : Json) where
  open j use {Metadata, dumps, loads}

  -- Absent binary data is the empty list, which adds nothing.
  unfoldable pub encode : Metadata → Bytes → Py Bytes
  encode metadata binary_data =
      let meta_bytes = dumps metadata in
      do header ← pack_meta_len (length meta_bytes); ok (header ++ (meta_bytes ++ binary_data))

  abbrev pub with_metadata : Option Metadata → Bytes → Py (Metadata × Bytes)
  with_metadata none binary_data = err (value_error invalid_metadata)
  with_metadata (some metadata) binary_data = ok (metadata, binary_data)

  unfoldable pub decode : Bytes → Py (Metadata × Bytes)
  decode data_ =
      if ltb (length data_) meta_len_size
      then err (value_error no_metadata_length)
      else (let meta_len = read32 data_ 0 in
          if ltb (length data_) (meta_len_size + meta_len)
          then err (value_error payload_incomplete)
          else with_metadata (loads (take meta_len (drop meta_len_size data_)))
              (drop (meta_len_size + meta_len) data_))

-- ===== src/Session/Retained.antt =====
-- server/session/SessionManager.cpp: the lookup of the result that the manager retains.
use log_transfer_analyzer.Prelude.{
  ℕ, Bool, true, false, not, ◌&&◌, ◌||◌, ◌==◌, if◌then◌else◌, [], ◌∷◌, Option, none, some, Bytes,
}
use log_transfer_analyzer.Session.{RetainedResult}

-- `!=` of two strings, negated.
unfoldable pub same_bytes : Bytes → Bytes → Bool
same_bytes [] [] = true
same_bytes [] (b ∷ bs) = false
same_bytes (a ∷ as') [] = false
same_bytes (a ∷ as') (b ∷ bs) = a == b && same_bytes as' bs

-- `retainedResult`; `_hasRetained` is false at none.
unfoldable pub retained_result : Option RetainedResult → Bytes → ℕ → ℕ → Option RetainedResult
unfolding same_bytes
retained_result none filename file_size upload_crc32 = none
retained_result (some kept) filename file_size upload_crc32 =
    if not (same_bytes kept.filename filename)
      || not (kept.file_size == file_size)
      || not (kept.upload_crc32 == upload_crc32)
    then none
    else some kept

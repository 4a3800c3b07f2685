-- ===== src/Staging/Chunks.antt =====
-- What the chunk loop of runtime/sv08_staging.py reads.
use sv08_mainline.Base.{
  ℕ, zero, suc, ◌+◌, ◌-◌, ◌≡◌, refl, ◌∙◌, Bool, true, false, List, [], ◌∷◌, ◌++◌, ok, err,
  value_error, arith, length, ltb, if◌then◌else◌,
}
use mathlib.Core.List.{append_assoc}
use sv08_mainline.Base.Lists.{length-append}
use sv08_mainline.Staging.{Answer, chunk, invalid, receive_chunks}

-- the bytes of the answers, up to one that is no bytes object
abbrev pub stream_bytes : List Answer → List ℕ
stream_bytes [] = []
stream_bytes (chunk bs ∷ stream) = bs ++ stream_bytes stream
stream_bytes (invalid ∷ stream) = []

-- A loop that returns has read exactly as many bytes as were declared, and has taken them from the
-- stream in their order: together with what is left they are the stream.
pub receive_chunks_returns :
    (size : ℕ) (stream : List Answer) (received : List ℕ) (r : List ℕ × List Answer)
    → receive_chunks size stream received ≡ ok r
    → (length r.0 ≡ length received + size)
      × (r.0 ++ stream_bytes r.1 ≡ received ++ stream_bytes stream)
unfolding receive_chunks
receive_chunks_returns zero stream received r h = ground arith
receive_chunks_returns (suc n) [] received r h = cc
receive_chunks_returns (suc n) (invalid ∷ stream) received r h = cc
receive_chunks_returns (suc n) (chunk [] ∷ stream) received r h = cc
receive_chunks_returns (suc n) (chunk (b ∷ bs) ∷ stream) received r h =
    go (ltb n (length bs)) refl h
      (receive_chunks_returns (n - length bs) stream (received ++ b ∷ bs) r)
  where
    go :
        (t : Bool)
        → ltb n (length bs) ≡ t
        → (if t
            then err (value_error "Truncated or invalid upload stream")
            else receive_chunks (n - length bs) stream (received ++ b ∷ bs))
          ≡ ok r
        → (receive_chunks (n - length bs) stream (received ++ b ∷ bs) ≡ ok r
            → (length r.0 ≡ length (received ++ b ∷ bs) + (n - length bs))
              × (r.0 ++ stream_bytes r.1 ≡ (received ++ b ∷ bs) ++ stream_bytes stream))
        → (length r.0 ≡ length received + suc n)
          × (r.0 ++ stream_bytes r.1 ≡ received ++ ((b ∷ bs) ++ stream_bytes stream))
    go true e h k = cc
    go false e h k = (
      ground (arith, (k h).0, length-append received (b ∷ bs), e),
      (k h).1 ∙ append_assoc received (b ∷ bs) (stream_bytes stream),
    )

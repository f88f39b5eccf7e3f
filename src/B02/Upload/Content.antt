-- ===== src/B02/Upload/Content.antt =====
-- What a stored upload holds.
use black_soil_loop_server.Prelude.{
  ℕ, ◌+◌, ◌≤◌, ◌≡◌, refl, true, List, [], ◌∷◌, ◌++◌, ltb, length, length-append, arith, inl, inr,
  Bool-cases, ◌∙◌,
}
use black_soil_loop_server.B02.Upload.{
  ImageType, Bytes, valid_image_signature, stored, read_more, read_upload,
}

-- The bytes of the chunks, in their order.
unfoldable pub content_of : List Bytes → Bytes
content_of [] = []
content_of (chunk ∷ chunks) = chunk ++ content_of chunks

append_nil : (xs : Bytes) → xs ++ [] ≡ xs
append_nil [] = refl
append_nil (x ∷ xs) = ground (arith, append_nil xs)

append_assoc : (xs ys zs : Bytes) → (xs ++ ys) ++ zs ≡ xs ++ (ys ++ zs)
append_assoc [] ys zs = refl
append_assoc (x ∷ xs) ys zs = ground (arith, append_assoc xs ys zs)

read_more-stored :
    (limit : ℕ) (written : Bytes) (chunks : List Bytes) (bytes : Bytes)
    → length written ≤ limit
    → read_more limit written chunks ≡ stored bytes
    → (bytes ≡ written ++ content_of chunks) × (length bytes ≤ limit)
unfolding read_more content_of
read_more-stored limit written [] bytes le p = (ground (arith, append_nil written), ground arith)
read_more-stored limit written (chunk ∷ chunks) bytes le p =
    elim (Bool-cases (ltb limit (length written + length chunk))) [
      | inl large ↦ absurd (ground arith)
      | inr fits ↦
          let (same, short) =
            read_more-stored limit (written ++ chunk) chunks bytes
              (ground (arith, length-append written chunk)) (ground arith) in
          (same ∙ append_assoc written chunk (content_of chunks), short)
    ]

-- An upload that is stored holds all the bytes of its chunks in their order, is not longer than the
-- limit, was not empty, and its first chunk begins as a file of the declared type does.
pub read_upload-stored :
    (content_type : ImageType) (limit : ℕ) (chunks : List Bytes) (bytes : Bytes)
    → read_upload content_type limit chunks ≡ stored bytes
    → (bytes ≡ content_of chunks)
      × (length bytes ≤ limit)
      × ((first : Bytes) × (rest : List Bytes) × (chunks ≡ first ∷ rest)
          × (valid_image_signature content_type first ≡ true))
unfolding read_upload
read_upload-stored content_type limit [] bytes p = absurd (ground arith)
read_upload-stored content_type limit (chunk ∷ chunks) bytes p =
    elim (Bool-cases (valid_image_signature content_type chunk)) [
      | inr other ↦ absurd (ground arith)
      | inl image ↦
          let (same, fits) =
            read_more-stored limit [] (chunk ∷ chunks) bytes (omega arith) (ground arith) in
          (same, fits, (chunk, chunks, refl, image))
    ]

-- ===== src/Protocol/Complete.antt =====
-- frame.rs, the end of `prepare_complete`: the longest prefix of the items that fits is encoded.
use eliot_search.Prelude.{
  ℕ, ◌≤◌, ◌<◌, ◌≡◌, ap, ◌∙◌, Bool, true, List, arith, Bytes, length, leb, if◌then◌else◌,
}
use eliot_search.Exec.{Result, ok, err, Exec, calm, pure, fail, continue, ◌>>=◌}
use eliot_search.Protocol.{ProtocolError, frame_too_large, max_body_bytes, max_frame_bytes}
use eliot_search.Protocol.Buffer.Fragments.{concat}
use eliot_search.Protocol.Codec.{encode, fits}
use eliot_search.Protocol.Codec.RoundTrip.{framed}
use eliot_search.Protocol.Codec.Fits.{fits-encode}
use eliot_search.Protocol.Prefix.{search_prefix, search_prefix-IsLongest}

-- `result?`
abbrev pub lift {ℓ} : {A : Type ℓ} → Result ProtocolError A → Exec ProtocolError A
lift (ok a) = pure a
lift (err e) = fail e

module _ {ℓ} {A : Type ℓ} (pieces : A → List Bytes) (completes : A → Bool)
    (complete_wire : ℕ → A) where
  -- `complete_wire n` is the terminal with the first n items.
  unfoldable pub encode_longest : ℕ → Exec ProtocolError Bytes
  encode_longest count =
      lift (search_prefix (λ n. fits pieces completes (complete_wire n)) count 0 count) >>= λ low.
      encode pieces completes (complete_wire low) max_frame_bytes

-- The size of the text of a prefix.
abbrev pub size {ℓ} : {A : Type ℓ} → (A → List Bytes) → (ℕ → A) → ℕ → ℕ
size pieces complete_wire n = length (concat (pieces (complete_wire n)))

-- Undisturbed, where the serializer completes every prefix and writes no less for more items, and the
-- terminal without items fits: what is encoded is the frame of a prefix whose text is within the
-- ceiling of a body, and the text of every longer prefix is above it.
pub encode_longest_lem {ℓ} :
    {A : Type ℓ} (pieces : A → List Bytes) (completes : A → Bool) (complete_wire : ℕ → A)
    (count : ℕ)
    → ((n : ℕ) → n ≤ count → completes (complete_wire n) ≡ true)
    → ((m n : ℕ) → m ≤ n → n ≤ count → size pieces complete_wire m ≤ size pieces complete_wire n)
    → size pieces complete_wire 0 ≤ max_body_bytes
    → (n : ℕ) × (encode_longest pieces completes complete_wire count calm
        ≡ ok (framed (concat (pieces (complete_wire n))), calm))
      × (n ≤ count)
      × (size pieces complete_wire n ≤ max_body_bytes)
      × ((m : ℕ) → n < m → m ≤ count → max_body_bytes < size pieces complete_wire m)
unfolding encode_longest ◌>>=◌
encode_longest_lem pieces completes complete_wire count done grows empty =
    let text : ℕ → ℕ = λ n. length (concat (pieces (complete_wire n))) in
    let test : ℕ → Bool = λ n. leb (text n) max_body_bytes in
    let (n, found, (inside, fit, longest)) =
      search_prefix-IsLongest (λ k. fits pieces completes (complete_wire k)) test count
        (λ k h. (fits-encode pieces completes (complete_wire k) (done k h)).0)
        (λ a b ab bc fine. let less = grows a b ab bc in ground arith) (ground arith) in
    (
      n,
      ap
            (λ r.
              continue (lift r calm)
                (λ low. encode pieces completes (complete_wire low) max_frame_bytes))
            found
          ∙ ((fits-encode pieces completes (complete_wire n) (done n inside)).1
              ∙ ap
                  (λ t.
                    if t
                    then ok (framed (concat (pieces (complete_wire n))), calm)
                    else err frame_too_large)
                  fit),
      inside,
      ground arith,
      λ m over under. let out = longest m over under in ground arith,
    )

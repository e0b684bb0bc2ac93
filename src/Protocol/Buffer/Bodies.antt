-- ===== src/Protocol/Buffer/Bodies.antt =====
-- A push to a buffer whose prefix is known.
use eliot_search.Prelude.{
  ℕ, ◌+◌, ◌-◌, ◌≤◌, ◌<◌, ◌≡◌, refl, sym, ap, ◌∙◌, true, [], ◌++◌, arith, Bytes, length, take, drop,
  take_all, length-take, inl, inr, Bool-cases, length-append, ltb,
}
use eliot_search.Prelude.Words.{from_le_bytes, max_u64}
use eliot_search.Exec.{Result, ok, err}
use eliot_search.Protocol.{ProtocolError}
use eliot_search.Protocol.Buffer.{FrameBuffer, zeros, copy_into, open_body, received, push}
use eliot_search.Protocol.Buffer.Received.{
  declared, accept, open_with, holding, take_prefix, copy_into-zeros, receive-holding, accept-empty,
  accept-large, accept-fits, prefixed, open_body-empty, open_body-large, open_body-fits,
}

same_buffer :
    (maximum : ℕ) {u u' : ℕ} {p p' b b' : Bytes}
    → p ≡ p'
    → b ≡ b'
    → u ≡ u'
    → ◌≡◌ {A = FrameBuffer}
        (record { prefix = p; prefix_used = 4; bytes = b; used = u; maximum = maximum })
        (record { prefix = p'; prefix_used = 4; bytes = b'; used = u'; maximum = maximum })
same_buffer maximum hp hb hu = cc

-- Behind the prefix alone.
opened :
    (maximum : ℕ) (bytes : Bytes)
    → length bytes ≡ 4
    → ◌≡◌ {A = FrameBuffer}
        (record (prefixed maximum bytes) {
          bytes = copy_into (zeros (from_le_bytes bytes + 4)) 0 bytes;
          used = 4;
        })
        (open_with maximum bytes)
opened maximum bytes full =
    let whole : take 4 bytes ≡ bytes = take_all 4 bytes (omega arith) in
    let same : from_le_bytes bytes + 4 ≡ declared bytes =
      ap (λ l. from_le_bytes l + 4) (sym whole) in
    same_buffer maximum (sym whole)
      (copy_into-zeros [] bytes (from_le_bytes bytes + 4)
        ∙ ap (λ n. bytes ++ zeros (n - length bytes)) same)
      (sym full)

-- A result of `push` that agrees with what the stream holds so far.
abbrev pub Agrees :
    ℕ → ℕ → Result ProtocolError Bytes → Result ProtocolError ℕ × FrameBuffer → Type 0
Agrees maximum before (ok whole) r = r ≡ (ok (length whole - before), holding maximum whole)
Agrees maximum before (err e) r = r.0 ≡ err e

-- A prefix that has just become complete is checked.
pub open_body-Agrees :
    (maximum consumed before : ℕ) (bytes input : Bytes)
    → maximum ≤ max_u64
    → length bytes ≡ 4
    → before + consumed ≡ 4
    → Agrees maximum before
        (accept maximum (bytes ++ drop consumed input))
        (received consumed input (prefixed maximum bytes) (open_body true (prefixed maximum bytes)))
open_body-Agrees maximum consumed before bytes input small full split =
    let s : Bytes = bytes ++ drop consumed input in
    let whole : take 4 bytes ≡ bytes = take_all 4 bytes (omega arith) in
    let head : take 4 s ≡ bytes = take_prefix 4 bytes (drop consumed input) (omega arith) ∙ whole in
    let same : declared s ≡ from_le_bytes bytes + 4 = ap (λ l. from_le_bytes l + 4) head in
    let same' : declared bytes ≡ from_le_bytes bytes + 4 = ap (λ l. from_le_bytes l + 4) whole in
    let long : 4 ≤ length s = omega (arith, length-append bytes (drop consumed input)) in
    elim (Bool-cases (ltb 0 (from_le_bytes bytes))) [
      | inr z ↦
          rw
            (
              accept-empty maximum s long (ground (arith, same)),
              open_body-empty maximum bytes (ground arith),
            )
            refl
      | inl p ↦ elim (Bool-cases (ltb maximum (from_le_bytes bytes + 4))) [
        | inl h ↦
            rw
              (
                accept-large maximum s long (ground (arith, same)) (ground (arith, same)),
                open_body-large maximum bytes (ground arith) (ground arith),
              )
              refl
        | inr h ↦
            rw
              (
                accept-fits maximum s long (ground (arith, same)) (ground (arith, same)),
                open_body-fits maximum bytes small (ground arith) (ground arith),
                opened maximum bytes full,
                same ∙ sym same',
              )
              (receive-holding maximum consumed before bytes input (omega arith)
                (omega (arith, same')) (omega arith))
      ]
    ]

-- What is accepted as it stands is no longer than its frame.
accept-settled :
    (maximum : ℕ) (bytes : Bytes)
    → 4 ≤ length bytes
    → accept maximum bytes ≡ ok bytes
    → (4 < declared bytes) × (declared bytes ≤ maximum) × (length bytes ≤ declared bytes)
unfolding accept
accept-settled maximum bytes long h =
    let same : take (declared bytes) bytes ≡ bytes = ground arith in
    (
      ground arith,
      ground arith,
      omega (arith, ap (λ (l : Bytes). length l) same, length-take (declared bytes) bytes),
    )

pub push-open-Agrees :
    (maximum : ℕ) (bytes input : Bytes)
    → 4 ≤ length bytes
    → accept maximum bytes ≡ ok bytes
    → Agrees maximum
        (length bytes)
        (accept maximum (bytes ++ input))
        (push true input (open_with maximum bytes))
unfolding push
push-open-Agrees maximum bytes input long before =
    let (some_body, fits, inside) = accept-settled maximum bytes long before in
    let same : declared (bytes ++ input) ≡ declared bytes =
      ap (λ l. from_le_bytes l + 4) (take_prefix 4 bytes input long) in
    rw
      (
        accept-fits maximum (bytes ++ input) (omega (arith, length-append bytes input))
            (omega (arith, same)) (omega (arith, same)),
        same,
      )
      (receive-holding maximum 0 (length bytes) bytes input long inside (omega arith))

-- ===== src/Frame/Canonical.antt =====
-- The bytes that `decode_frame_bytes` accepts.
use side_wire_kernel_su.Base.{
  ℕ, ◌+◌, ◌^◌, ◌≤◌, ◌<◌, ◌≡◌, refl, sym, ap, ◌∙◌, false, not, List, [], ◌∷◌, ◌++◌, Result, ok, err,
  bail_if-eq-ok, >>=-eq-ok, suc, ltb, ◌==◌, ltb→le, subst, length, take, arith, All,
}
use side_wire_kernel_su.Base.Bytes.{IsByte, be16, be32, from_be}
use side_wire_kernel_su.Frame.Kind.{FrameKind, UnknownKind, unknown_kind, code}
use side_wire_kernel_su.Frame.Codes.{code-try_from}
use side_wire_kernel_su.Frame.Version.{protocol_compatible}
use side_wire_kernel_su.Frame.Header.{
  Frame, magic, header_len, max_payload, from_kind, decode_frame_header, decode_frame_bytes,
  IsFrame,
}

-- The bytes of a header whose sender has the minor version `minor`.
abbrev pub header_of_minor : ℕ → FrameKind → ℕ → ℕ → List ℕ
header_of_minor minor kind stream_id n =
    magic ++ (1 ∷ minor ∷ be16 (code kind) ++ (be32 stream_id ++ be32 n))

from_kind-eq-ok_of :
    (r : Result UnknownKind FrameKind) (k : FrameKind) → from_kind r ≡ ok k → r ≡ ok k
from_kind-eq-ok_of (ok k') k h = cc
from_kind-eq-ok_of (err (unknown_kind n)) k h = cc

be32-from_be :
    (a b c d : ℕ)
    → IsByte a
    → IsByte b
    → IsByte c
    → IsByte d
    → (be32 (from_be (a ∷ b ∷ c ∷ d ∷ [])) ≡ a ∷ b ∷ c ∷ d ∷ [])
      × (from_be (a ∷ b ∷ c ∷ d ∷ []) < 2 ^ 32)
be32-from_be a b c d ha hb hc hd = ground arith

be16-from_be : (a b : ℕ) → IsByte a → IsByte b → be16 (from_be (a ∷ b ∷ [])) ≡ a ∷ b ∷ []
be16-from_be a b ha hb = ground arith

-- The four bytes at the front of a long enough string.
abbrev four : ℕ → ℕ → ℕ → ℕ → List ℕ
four a b c d = a ∷ b ∷ c ∷ d ∷ []

cut_four :
    (bs : List ℕ) → 4 ≤ length bs → (a b c d : ℕ) × (rest : List ℕ) × (bs ≡ a ∷ b ∷ c ∷ d ∷ rest)
cut_four [] h = absurd (omega arith)
cut_four (a ∷ []) h = absurd (omega arith)
cut_four (a ∷ b ∷ []) h = absurd (omega arith)
cut_four (a ∷ b ∷ c ∷ []) h = absurd (omega arith)
cut_four (a ∷ b ∷ c ∷ d ∷ rest) h = (a, b, c, d, rest, refl)

-- The fields of an accepted header.
decode_frame_header-eq-ok :
    (m₀ m₁ m₂ m₃ v₀ v₁ k₀ k₁ s₀ s₁ s₂ s₃ n₀ n₁ n₂ n₃ : ℕ) (kind : FrameKind) (stream_id len : ℕ)
    → IsByte v₀
    → IsByte v₁
    → decode_frame_header
        (m₀ ∷ m₁ ∷ m₂ ∷ m₃ ∷ v₀ ∷ v₁ ∷ k₀ ∷ k₁ ∷ s₀ ∷ s₁ ∷ s₂ ∷ s₃ ∷ n₀ ∷ n₁ ∷ n₂ ∷ n₃ ∷ [])
      ≡ ok (kind, stream_id, len)
    → (four m₀ m₁ m₂ m₃ ≡ magic)
      × (v₀ ≡ 1)
      × (code kind ≡ from_be (k₀ ∷ k₁ ∷ []))
      × (stream_id ≡ from_be (four s₀ s₁ s₂ s₃))
      × (len ≡ from_be (four n₀ n₁ n₂ n₃))
      × (len ≤ max_payload)
unfolding decode_frame_header protocol_compatible
decode_frame_header-eq-ok m₀ m₁ m₂ m₃ v₀ v₁ k₀ k₁ s₀ s₁ s₂ s₃ n₀ n₁ n₂ n₃ kind stream_id len b₀ b₁
      h =
    ground (arith, code-try_from (from_be (k₀ ∷ k₁ ∷ [])) kind)

-- The header's sixteen bytes in terms of the decoded fields.
header_eq :
    (m₀ m₁ m₂ m₃ v₀ v₁ k₀ k₁ s₀ s₁ s₂ s₃ n₀ n₁ n₂ n₃ : ℕ) (payload : List ℕ) (kind : FrameKind)
    (stream_id len : ℕ)
    → All IsByte
        (m₀ ∷ m₁ ∷ m₂ ∷ m₃ ∷ v₀ ∷ v₁ ∷ k₀ ∷ k₁ ∷ s₀ ∷ s₁ ∷ s₂ ∷ s₃ ∷ n₀ ∷ n₁ ∷ n₂ ∷ n₃ ∷ payload)
    → decode_frame_header
        (m₀ ∷ m₁ ∷ m₂ ∷ m₃ ∷ v₀ ∷ v₁ ∷ k₀ ∷ k₁ ∷ s₀ ∷ s₁ ∷ s₂ ∷ s₃ ∷ n₀ ∷ n₁ ∷ n₂ ∷ n₃ ∷ [])
      ≡ ok (kind, stream_id, len)
    → (m₀ ∷ m₁ ∷ m₂ ∷ m₃ ∷ v₀ ∷ v₁ ∷ k₀ ∷ k₁ ∷ s₀ ∷ s₁ ∷ s₂ ∷ s₃ ∷ n₀ ∷ n₁ ∷ n₂ ∷ n₃ ∷ payload
        ≡ header_of_minor v₁ kind stream_id len ++ payload)
      × (stream_id < 2 ^ 32)
      × (len ≤ max_payload)
header_eq m₀ m₁ m₂ m₃ v₀ v₁ k₀ k₁ s₀ s₁ s₂ s₃ n₀ n₁ n₂ n₃ payload kind stream_id len
      (
        _,
        (
          _,
          (
            _,
            (
              _,
              (bv₀, (bv₁, (bk₀, (bk₁, (bs₀, (bs₁, (bs₂, (bs₃, (bn₀, (bn₁, (bn₂, (bn₃, _)))))))))))),
            ),
          ),
        ),
      )
      h =
    let fields =
      decode_frame_header-eq-ok m₀ m₁ m₂ m₃ v₀ v₁ k₀ k₁ s₀ s₁ s₂ s₃ n₀ n₁ n₂ n₃ kind stream_id len
        bv₀ bv₁ h in
    (
      ground (arith, fields),
      omega (arith, be32-from_be s₀ s₁ s₂ s₃ bs₀ bs₁ bs₂ bs₃, fields),
      fields.5,
    )

-- What the decoder has seen when it answers with `f`.
Accepted : List ℕ → Frame → Type 0
Accepted bytes f =
    (minor : ℕ) × (minor < 256)
    × (bytes ≡ header_of_minor minor f.kind f.stream_id (length f.payload) ++ f.payload)
    × IsFrame f

ok-injective : {E : Type 0} (f g : Frame) → ◌≡◌ {A = Result E Frame} (ok f) (ok g) → f ≡ g
ok-injective f g h = cc

decode_frame_bytes_long :
    (bytes : List ℕ) (f : Frame) → decode_frame_bytes bytes ≡ ok f → 16 ≤ length bytes
unfolding decode_frame_bytes
decode_frame_bytes_long bytes f h =
    ltb→le (length bytes) header_len (bail_if-eq-ok (ltb (length bytes) header_len) _ _ h).0

-- The length test ties the payload to the declared length.
length_tied :
    (a n : ℕ)
    → not (
        suc (
          suc (suc (suc (suc (suc (suc (suc (suc (suc (suc (suc (suc (suc (suc (suc a)))))))))))))))
        == header_len + n)
      ≡ false
    → n ≡ a
length_tied a n h = ground arith

Accepted-of_conses :
    (m₀ m₁ m₂ m₃ v₀ v₁ k₀ k₁ s₀ s₁ s₂ s₃ n₀ n₁ n₂ n₃ : ℕ) (payload : List ℕ) (f : Frame)
    → All IsByte
        (m₀ ∷ m₁ ∷ m₂ ∷ m₃ ∷ v₀ ∷ v₁ ∷ k₀ ∷ k₁ ∷ s₀ ∷ s₁ ∷ s₂ ∷ s₃ ∷ n₀ ∷ n₁ ∷ n₂ ∷ n₃ ∷ payload)
    → decode_frame_bytes
        (m₀ ∷ m₁ ∷ m₂ ∷ m₃ ∷ v₀ ∷ v₁ ∷ k₀ ∷ k₁ ∷ s₀ ∷ s₁ ∷ s₂ ∷ s₃ ∷ n₀ ∷ n₁ ∷ n₂ ∷ n₃ ∷ payload)
      ≡ ok f
    → Accepted
        (m₀ ∷ m₁ ∷ m₂ ∷ m₃ ∷ v₀ ∷ v₁ ∷ k₀ ∷ k₁ ∷ s₀ ∷ s₁ ∷ s₂ ∷ s₃ ∷ n₀ ∷ n₁ ∷ n₂ ∷ n₃ ∷ payload)
        f
unfolding decode_frame_bytes Accepted
Accepted-of_conses m₀ m₁ m₂ m₃ v₀ v₁ k₀ k₁ s₀ s₁ s₂ s₃ n₀ n₁ n₂ n₃ payload f bytes h =
    let all : List ℕ =
      m₀ ∷ m₁ ∷ m₂ ∷ m₃ ∷ v₀ ∷ v₁ ∷ k₀ ∷ k₁ ∷ s₀ ∷ s₁ ∷ s₂ ∷ s₃ ∷ n₀ ∷ n₁ ∷ n₂ ∷ n₃ ∷ payload in
    let (_, h₁) = bail_if-eq-ok (ltb (length all) header_len) _ _ h in
    let ((kind, stream_id, len), decoded, h₂) =
      >>=-eq-ok (decode_frame_header (take 16 all)) _ h₁ in
    let (tied, h₃) = bail_if-eq-ok (not (length all == header_len + len)) _ _ h₂ in
    let (eq, id_fits, len_fits) =
      header_eq m₀ m₁ m₂ m₃ v₀ v₁ k₀ k₁ s₀ s₁ s₂ s₃ n₀ n₁ n₂ n₃ payload kind stream_id len bytes
        decoded in
    let e : len ≡ length payload = length_tied (length payload) len tied in
    subst (λ g. Accepted all g) (ok-injective _ f h₃)
      (
        v₁,
        omega arith,
        subst (λ n. all ≡ header_of_minor v₁ kind stream_id n ++ payload) e eq,
        record { id_fits = id_fits; payload_fits = omega arith },
      )

-- Whatever bytes the decoder accepts are the encoding of the frame that it returns, by a peer of
-- major version 1 and some minor version: the frame fits the format, and no byte is ignored but
-- the minor version.
pub decode_frame_bytes_canonical :
    (bytes : List ℕ) (f : Frame)
    → All IsByte bytes
    → decode_frame_bytes bytes ≡ ok f
    → (minor : ℕ) × (minor < 256)
      × (bytes ≡ header_of_minor minor f.kind f.stream_id (length f.payload) ++ f.payload)
      × IsFrame f
unfolding Accepted
decode_frame_bytes_canonical bytes f b h =
    let long : 16 ≤ length bytes = decode_frame_bytes_long bytes f h in
    let (m₀, m₁, m₂, m₃, r₁, e₁) = cut_four bytes (omega arith) in
    let (v₀, v₁, k₀, k₁, r₂, e₂) = cut_four r₁ (omega (arith, ap length e₁)) in
    let (s₀, s₁, s₂, s₃, r₃, e₃) = cut_four r₂ (omega (arith, ap length e₁, ap length e₂)) in
    let (n₀, n₁, n₂, n₃, payload, e₄) =
      cut_four r₃ (omega (arith, ap length e₁, ap length e₂, ap length e₃)) in
    let e : bytes
        ≡ m₀ ∷ m₁ ∷ m₂ ∷ m₃ ∷ v₀ ∷ v₁ ∷ k₀ ∷ k₁ ∷ s₀ ∷ s₁ ∷ s₂ ∷ s₃ ∷ n₀ ∷ n₁ ∷ n₂ ∷ n₃ ∷ payload =
      e₁
      ∙ ap (λ t. m₀ ∷ m₁ ∷ m₂ ∷ m₃ ∷ t)
          (e₂ ∙ ap (λ t. v₀ ∷ v₁ ∷ k₀ ∷ k₁ ∷ t) (e₃ ∙ ap (λ t. s₀ ∷ s₁ ∷ s₂ ∷ s₃ ∷ t) e₄)) in
    subst (λ bs. Accepted bs f) (sym e)
      (Accepted-of_conses m₀ m₁ m₂ m₃ v₀ v₁ k₀ k₁ s₀ s₁ s₂ s₃ n₀ n₁ n₂ n₃ payload f
        (subst (All IsByte) e b) (subst (λ bs. decode_frame_bytes bs ≡ ok f) e h))

-- ===== src/Proxy/SyslogForwarder/Frames.antt =====
-- A message ends no frame, and the fields have their bounds.
use wardnode.Base.{
  ℕ, zero, suc, ◌+◌, ◌-◌, ◌*◌, ◌/◌, ◌%◌, ◌≤◌, ◌<◌, ◌≡◌, ◌≢◌, ◌⊎◌, refl, String, false, some, any,
  take, ◌=?◌, if◌then◌else◌, List, [], ◌∷◌, ◌++◌, arith, ltb, length, length-take, All, All-append,
  All-take, Bool-cases, inl, inr,
}
use wardnode.Text.{codes}
use wardnode.Proxy.SyslogForwarder.{
  code_of, facility_codes, facility_code, utf8_size, byte_length, take_bytes, sanitize, body,
  underscores, or_nil, header_field, number_text, is_surrogate, build_rfc5424, max_msg_bytes,
}

-- The character ends no frame: it is neither NUL nor CR nor LF.
abbrev pub IsInline : ℕ → Type 0
IsInline c = (c ≢ 0) × (c ≢ 13) × (c ≢ 10)

sanitize-IsInline : (s : List ℕ) → All IsInline (sanitize s)
unfolding sanitize
sanitize-IsInline [] = tt
sanitize-IsInline (c ∷ s) = ground (arith, sanitize-IsInline s)

take_bytes-IsInline : (n : ℕ) (s : List ℕ) → All IsInline s → All IsInline (take_bytes n s)
unfolding take_bytes
take_bytes-IsInline n [] h = tt
take_bytes-IsInline n (c ∷ s) h = ground (arith, take_bytes-IsInline (n - utf8_size c) s h.1)

utf8_size_pos : (c : ℕ) → (1 ≤ utf8_size c) × (utf8_size c ≤ 4)
unfolding utf8_size
utf8_size_pos c = ground arith

byte_length-take_bytes : (n : ℕ) (s : List ℕ) → byte_length (take_bytes n s) ≤ n
unfolding byte_length take_bytes
byte_length-take_bytes n [] = omega arith
byte_length-take_bytes n (c ∷ s) = ground (arith, byte_length-take_bytes (n - utf8_size c) s)

byte_length-append : (s t : List ℕ) → byte_length (s ++ t) ≡ byte_length s + byte_length t
unfolding byte_length
byte_length-append [] t = omega arith
byte_length-append (c ∷ s) t = omega (arith, byte_length-append s t)

body-IsInline : (message : List ℕ) → All IsInline (body message)
unfolding body
body-IsInline message = elim (Bool-cases (ltb max_msg_bytes (byte_length (sanitize message)))) [
  | inl long ↦ rw long (
      All-append IsInline (take_bytes max_msg_bytes (sanitize message)) (codes " [truncated]")
        (take_bytes-IsInline max_msg_bytes (sanitize message) (sanitize-IsInline message))
        (ground arith))
  | inr fits ↦ rw fits (sanitize-IsInline message)
]

byte_length-mark : byte_length (codes " [truncated]") ≡ 12
unfolding byte_length utf8_size
byte_length-mark = refl

byte_length-body : (message : List ℕ) → byte_length (body message) ≤ max_msg_bytes + 12
unfolding body
byte_length-body message = elim (Bool-cases (ltb max_msg_bytes (byte_length (sanitize message)))) [
  | inl long ↦ rw long (
      omega (
        arith,
        byte_length-append (take_bytes max_msg_bytes (sanitize message)) (codes " [truncated]"),
        byte_length-take_bytes max_msg_bytes (sanitize message),
        byte_length-mark,
      ))
  | inr fits ↦ rw fits (ground arith)
]

-- No space ends a header field early.
underscores-ne : (s : List ℕ) → All (λ c. c ≢ 32) (underscores s)
unfolding underscores
underscores-ne [] = tt
underscores-ne (c ∷ s) = ground (arith, underscores-ne s)

take_pos : (n c : ℕ) (s : List ℕ) → 1 ≤ n → 1 ≤ length (take n (c ∷ s))
take_pos zero c s h = omega (arith, h)
take_pos (suc n) c s h = omega arith

or_nil_pos : (n : ℕ) (s : List ℕ) → 1 ≤ n → 1 ≤ length (take n (underscores (or_nil s)))
unfolding underscores or_nil
or_nil_pos n [] h = take_pos n b'-' [] h
or_nil_pos n (c ∷ s) h = take_pos n (if c =? 32 then b'_' else c) (underscores s) h

-- A field of a header: from one character to its width, and no space.
pub record IsField (width : ℕ) (s : List ℕ) : Type 0 where
  pub present : 1 ≤ length s
  pub narrow : length s ≤ width
  pub no_space : All (λ c. c ≢ 32) s

header_field-IsField : (n : ℕ) (s : List ℕ) → 1 ≤ n → IsField n (header_field n s)
unfolding header_field
header_field-IsField n s h = record {
  present = or_nil_pos n s h;
  narrow = omega (arith, length-take n (underscores (or_nil s)));
  no_space = All-take (λ c. c ≢ 32) n (underscores (or_nil s)) (underscores-ne (or_nil s));
}

code_of-le :
    (n : ℕ) (table : List (String × ℕ)) (name : String) (d : ℕ)
    → All (λ (e : String × ℕ). e.1 ≤ n) table
    → d ≤ n
    → code_of table name d ≤ n
unfolding code_of
code_of-le n [] name d h k = k
code_of-le n ((j, v) ∷ table) name d h k = ground (arith, code_of-le n table name d h.1 k)

facility_code-le : (name : String) → facility_code name ≤ 23
unfolding facility_code
facility_code-le name = code_of-le 23 facility_codes name 23 (omega arith) (omega arith)

sanitize_id : (s : List ℕ) → All IsInline s → sanitize s ≡ s
unfolding sanitize
sanitize_id [] h = refl
sanitize_id (c ∷ s) h = ground (arith, sanitize_id s h.1)

-- The number that digits write.
abbrev pub value : ℕ → List ℕ → ℕ
value n [] = n
value n (c ∷ s) = value (n * 10 + (c - 48)) s

abbrev pub AreDigits : List ℕ → Type 0
AreDigits s = All (λ c. (48 ≤ c) × (c ≤ 57)) s

value-append : (n : ℕ) (s : List ℕ) (c : ℕ) → value n (s ++ (c ∷ [])) ≡ value n s * 10 + (c - 48)
value-append n [] c = refl
value-append n (d ∷ s) c = value-append (n * 10 + (d - 48)) s c

number_text-value :
    (fuel n : ℕ) → n < fuel → (value 0 (number_text fuel n) ≡ n) × AreDigits (number_text fuel n)
unfolding number_text
number_text-value zero n h = absurd (omega (arith, h))
number_text-value (suc fuel) n h = elim (Bool-cases (ltb n 10)) [
  | inl e ↦ rw e (omega arith, ((ground (arith, e), ground (arith, e)), tt))
  | inr e ↦
      let large : 10 ≤ n = ground (arith, e) in
      let r = number_text-value fuel (n / 10) (omega (arith, large, h)) in
      rw e (
        omega (arith, value-append 0 (number_text fuel (n / 10)) (n % 10 + 48), r.0),
        All-append (λ c. (48 ≤ c) × (c ≤ 57)) (number_text fuel (n / 10)) ((n % 10 + 48) ∷ []) (r.1)
            ((omega arith, omega arith), tt),
      )
]

-- What a collector relies on in the text of a frame: the priority in decimals between its brackets,
-- from which the two codes are read, the fields, the missing structured data, and the message.
pub record IsWellFormed (facility severity : ℕ) (timestamp : String) (text : List ℕ) : Type 0 where
  pub pri : List ℕ
  pub host : List ℕ
  pub app : List ℕ
  pub proc : List ℕ
  pub mid : List ℕ
  pub message : List ℕ
  pub parts :
      text
      ≡ b'<'
        ∷ (pri
            ++ (codes ">1 "
                ++ (codes timestamp
                    ++ (32
                        ∷ (host
                            ++ (32
                                ∷ (app
                                    ++ (32
                                        ∷ (proc ++ (32 ∷ (mid ++ (codes " - " ++ message))))))))))))
  pub digits : AreDigits pri
  pub pri_bound : value 0 pri ≤ 191
  pub facility_read : value 0 pri / 8 ≡ facility
  pub severity_read : value 0 pri % 8 ≡ severity
  pub host_field : IsField 255 host
  pub app_field : IsField 48 app
  pub proc_field : IsField 128 proc
  pub mid_field : IsField 32 mid
  pub one_line : All IsInline message
  pub message_bound : byte_length message ≤ max_msg_bytes + 12

-- No lone surrogate is in the text.
abbrev pub IsEncodable : List ℕ → Type 0
IsEncodable s = All (λ c. (c < 0xD800) ⊎ (0xDFFF < c)) s

sanitize-encodable : (s : List ℕ) → IsEncodable s → any is_surrogate (sanitize s) ≡ false
unfolding sanitize any is_surrogate
sanitize-encodable [] h = refl
sanitize-encodable (c ∷ s) h = ground (arith, h.0, sanitize-encodable s h.1)

-- For a message without lone surrogates, every header value, a facility of the table and a severity
-- below 8, the frame is built. It has the priority in decimals, at most 191, from which both codes
-- are read back, then the time, and four fields of their widths, none of them empty and none with a
-- space. The message at the end has no CR, LF or NUL and is at most 8204 bytes long; nothing is said
-- of CR, LF and NUL in the four fields.
pub build_rfc5424-IsWellFormed :
    (name timestamp : String) (severity : ℕ) (host app proc mid message : List ℕ)
    → severity < 8
    → IsEncodable message
    → (text : List ℕ) × (build_rfc5424
          (facility_code name)
          severity
          timestamp
          host
          app
          proc
          mid
          message
        ≡ some text)
      × IsWellFormed (facility_code name) severity timestamp text
unfolding build_rfc5424
build_rfc5424-IsWellFormed name timestamp severity host app proc mid message h k =
    let pri = facility_code name * 8 + severity in
    let n = number_text-value (suc pri) pri (omega arith) in
    (
      _,
      rw (sanitize-encodable message k) refl,
      record {
        pri = number_text (suc pri) pri;
        host = header_field 255 host;
        app = header_field 48 app;
        proc = header_field 128 proc;
        mid = header_field 32 mid;
        message = body message;
        parts = refl;
        digits = n.1;
        pri_bound = omega (arith, facility_code-le name, n.0);
        facility_read = omega (arith, n.0);
        severity_read = omega (arith, n.0);
        host_field = header_field-IsField 255 host (omega arith);
        app_field = header_field-IsField 48 app (omega arith);
        proc_field = header_field-IsField 128 proc (omega arith);
        mid_field = header_field-IsField 32 mid (omega arith);
        one_line = body-IsInline message;
        message_bound = byte_length-body message;
      },
    )

-- A message of one line that fits is sent as it is.
pub body_id :
    (message : List ℕ)
    → All IsInline message
    → byte_length message ≤ max_msg_bytes
    → body message ≡ message
unfolding body
body_id message inline fits =
    let short : ltb max_msg_bytes (byte_length message) ≡ false = ground (arith, fits) in
    rw (sanitize_id message inline, short) refl

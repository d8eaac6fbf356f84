-- ===== src/Probe/Echo.antt =====
-- The packets of probe.go: `buildEcho`, and the tests by which `collect` knows a reply.
use fogping.Prelude.{
  ℕ, suc, ◌+◌, ◌*◌, ◌/◌, ◌%◌, ◌^◌, ◌≤◌, ◌<◌, ◌≡◌, refl, sym, ap, ◌∙◌, All, le→leb, Bool, true,
  false, not, ◌&&◌, ◌||◌, Option, none, some, List, [], ◌∷◌, ◌++◌, arith, if◌then◌else◌, ◌==◌,
  nat_eq, text_eq, codes, ltb, leb, length, get_elem?, drop, take, length-append,
}
use fogping.Probe.Checksum.{IsByte, icmp_checksum, icmp_checksum_lt, icmp_checksum_verifies}

abbrev pub icmp_magic : List ℕ
icmp_magic = codes "fogpingv1!"

-- binary.BigEndian.PutUint16 of a number cut to 16 bits
abbrev pub big_endian : ℕ → List ℕ
big_endian n = n / 2 ^ 8 % 2 ^ 8 ∷ n % 2 ^ 8 ∷ []

abbrev pub echo_with : ℕ → ℕ → ℕ → List ℕ → List ℕ
echo_with cs id seq nonce =
    8 ∷ 0 ∷ big_endian cs ++ big_endian id ++ big_endian seq ++ icmp_magic ++ nonce

-- The packet is made with a checksum of 0, and the checksum of that is put in.
unfoldable pub build_echo : ℕ → ℕ → List ℕ → List ℕ
build_echo id seq nonce = echo_with (icmp_checksum (echo_with 0 id seq nonce)) id seq nonce

-- `pkt[i]`; every use comes after a test of the length.
abbrev pub byte_at : ℕ → List ℕ → ℕ
byte_at i bytes = elim (get_elem? bytes i) [ none ↦ 0 | some b ↦ b ]

-- binary.BigEndian.Uint16(pkt[i:i+2])
abbrev pub uint16_at : ℕ → List ℕ → ℕ
uint16_at i bytes = byte_at i bytes * 2 ^ 8 + byte_at (suc i) bytes

-- A raw socket gives the IP header too; `none` is `continue`.
unfoldable pub strip_header : Bool → List ℕ → Option (List ℕ)
strip_header raw bytes =
    if raw && leb 20 (length bytes)
    then (let ihl = byte_at 0 bytes % 2 ^ 4 * 4 in
        if leb (length bytes) ihl then none else some (drop ihl bytes))
    else some bytes

unfoldable pub reply_of : Bool → ℕ → List ℕ → Option (List ℕ) → Option ℕ
reply_of raw id nonce none = none
reply_of raw id nonce (some pkt) =
    if ltb (length pkt) (8 + length icmp_magic + 4) || not (byte_at 0 pkt == 0)
    then none
    else if raw && not (uint16_at 4 pkt == id)
    then none
    else if not (take 10 (drop 8 pkt) == icmp_magic) || not (take 4 (drop 18 pkt) == nonce)
    then none
    else some (uint16_at 6 pkt)

-- The sequence number of a reply to this round's packets.
unfoldable pub reply_seq : Bool → ℕ → List ℕ → List ℕ → Option ℕ
unfolding strip_header reply_of
reply_seq raw id nonce bytes = reply_of raw id nonce (strip_header raw bytes)

-- What a host answers to an echo request: the type becomes 0, and the checksum is another.
abbrev pub answer : ℕ → List ℕ → List ℕ
answer cs (t ∷ c ∷ hi ∷ lo ∷ rest) = 0 ∷ c ∷ big_endian cs ++ rest
answer cs other = other

abbrev pub IsHeader : Bool → List ℕ → Type 0
IsHeader true header = length header ≡ byte_at 0 header % 2 ^ 4 * 4
IsHeader false header = header ≡ []

if_or :
    {A : Type 0} (a b : Bool) (x y : A)
    → (if a then x else (if b then x else y)) ≡ (if a || b then x else y)
if_or true b x y = refl
if_or false b x y = refl

drop-append : {A : Type 0} (xs ys : List A) → drop (length xs) (xs ++ ys) ≡ ys
drop-append [] ys = refl
drop-append (x ∷ xs) ys = drop-append xs ys

header_length :
    (header pkt : List ℕ)
    → byte_at 0 pkt ≡ 0
    → length header ≡ byte_at 0 header % 2 ^ 4 * 4
    → byte_at 0 (header ++ pkt) % 2 ^ 4 * 4 ≡ length header
header_length [] pkt z h = rw z refl
header_length (b ∷ bytes) pkt z h = sym h

strip_header-append :
    (raw : Bool) (header pkt : List ℕ)
    → IsHeader raw header
    → byte_at 0 pkt ≡ 0
    → 20 ≤ length pkt
    → strip_header raw (header ++ pkt) ≡ some pkt
unfolding strip_header
strip_header-append false header pkt h z long = rw h refl
strip_header-append true header pkt h z long =
    let size : length (header ++ pkt) ≡ length header + length pkt = length-append header pkt in
    let whole : leb 20 (length (header ++ pkt)) ≡ true =
      le→leb 20 (length (header ++ pkt)) (omega arith) in
    let more : leb (length (header ++ pkt)) (length header) ≡ false = ground arith in
    rw (whole, header_length header pkt z h, more, drop-append header pkt) refl

build_echo_checks :
    (id seq n0 n1 n2 n3 : ℕ)
    → All IsByte (n0 ∷ n1 ∷ n2 ∷ n3 ∷ [])
    → icmp_checksum (build_echo id seq (n0 ∷ n1 ∷ n2 ∷ n3 ∷ [])) ≡ 0
unfolding build_echo
build_echo_checks id seq n0 n1 n2 n3 bytes =
    let blank = echo_with 0 id seq (n0 ∷ n1 ∷ n2 ∷ n3 ∷ []) in
    let cs = icmp_checksum blank in
    let small : cs / 256 % 256 ≡ cs / 256 = omega (arith, icmp_checksum_lt blank) in
    rw small (icmp_checksum_verifies 8 0 0 (drop 4 blank) (ground (arith, bytes)) (omega arith)).0

reply_of-build_echo :
    (raw : Bool) (cs id id' seq : ℕ) (n0 n1 n2 n3 : ℕ) (nonce : List ℕ)
    → id' < 65536
    → seq < 65536
    → reply_of raw id nonce (some (answer cs (build_echo id' seq (n0 ∷ n1 ∷ n2 ∷ n3 ∷ [])))) ≡ (
        if (raw && not (id' == id)) || not ((n0 ∷ n1 ∷ n2 ∷ n3 ∷ []) == nonce)
        then none
        else some seq)
unfolding reply_of build_echo
reply_of-build_echo raw cs id id' seq n0 n1 n2 n3 nonce h k =
    let number : id' / 256 % 256 * 256 + id' % 256 ≡ id' = omega arith in
    let order : seq / 256 % 256 * 256 + seq % 256 ≡ seq = omega arith in
    rw (number, order)
      (if_or (raw && not (id' == id)) (not ((n0 ∷ n1 ∷ n2 ∷ n3 ∷ []) == nonce)) none (some seq))

-- The answer to a packet of `build_echo`, with any checksum and with its IP header on a raw socket,
-- is known for the reply with that sequence number, where the nonce is the round's own and, on a
-- raw socket, the id is the process's; the answer to a packet of another round or process is passed
-- over. And the packet itself passes the check of its receiver: its checksum comes out as 0.
pub reply_seq-build_echo :
    (raw : Bool) (header : List ℕ) (cs id id' seq n0 n1 n2 n3 : ℕ) (nonce : List ℕ)
    → IsHeader raw header
    → id' < 65536
    → seq < 65536
    → All IsByte (n0 ∷ n1 ∷ n2 ∷ n3 ∷ [])
    → (reply_seq raw id nonce (header ++ answer cs (build_echo id' seq (n0 ∷ n1 ∷ n2 ∷ n3 ∷ [])))
        ≡ (if (raw && not (id' == id)) || not ((n0 ∷ n1 ∷ n2 ∷ n3 ∷ []) == nonce)
            then none
            else some seq))
      × (icmp_checksum (build_echo id' seq (n0 ∷ n1 ∷ n2 ∷ n3 ∷ [])) ≡ 0)
unfolding reply_seq
reply_seq-build_echo raw header cs id id' seq n0 n1 n2 n3 nonce h k l bytes =
    let sent = build_echo id' seq (n0 ∷ n1 ∷ n2 ∷ n3 ∷ []) in
    (
      ap (reply_of raw id nonce) (
            strip_header-append raw header (answer cs sent) h (unfold build_echo in refl)
              (unfold build_echo in omega arith))
          ∙ reply_of-build_echo raw cs id id' seq n0 n1 n2 n3 nonce k l,
      build_echo_checks id' seq n0 n1 n2 n3 bytes,
    )

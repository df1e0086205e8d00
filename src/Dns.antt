-- ===== src/Dns.antt =====
-- src/dns.rs: which addresses a DNS answer may give the tunnel, `check_endpoint_ip`, and the
-- canonical form of an answer, `canonicalize_answer`. An IPv4 address is its number, as `u32::from`
-- gives it. The resolver's exchange itself is the library's and the network's.
pub mod Canonical
pub mod Tests
use udp2raw_rust.Prelude.{
  ℕ, zero, suc, ◌+◌, ◌-◌, ◌*◌, ◌/◌, ◌%◌, ◌^◌, ◌≤◌, ◌<◌, min, max, bit_and, bit_or, bit_xor, ◌≡◌,
  refl, sym, ap, ap₂, ◌∙◌, subst, ◌≢◌, ◌↔◌, ◌⊎◌, inl, inr, Bool, true, false, not, ◌&&◌, ◌||◌,
  Option, none, some, List, [], ◌∷◌, ◌++◌, map, append-nil, append_assoc, arith, dec_lt, ℕ_discrete,
  ltb, leb, ◌==◌, if◌then◌else◌, ◌>>=◌, ◌>>◌, guard, ltb→lt, lt→ltb, leb→le, ==_iff, ==-refl, tests,
  Bool-cases, Option-cases, IfSome, IfSome-some, IfSome-map, zero-bit_xor, differ_bits,
  bit_xor_parts, bit_xor_cancel, zero-bit_or, le-bit_or, bit_xor-lt, bit_xor-eq-zero, bit_xor_self,
  length, set, get_or, take, drop, replicate, length-append, length-set, get_or-set_self,
  get_or-set_ne, length-replicate, get_or-replicate, length-take, length-drop, take-append,
  drop-append, take-append-drop, take_of_length-le, drop-append_past, get_or-append_past,
  get_or-append_before, drop_of_length-le, u64_max, u32_max, sat_add, sat_mul, sat_add32, clamp,
  byte_at, ◌<<<◌, ◌>>>◌, AreBytes, append-AreBytes, take-AreBytes, drop-AreBytes,
  replicate-AreBytes,
}

abbrev pub max_endpoint_candidates : ℕ
max_endpoint_candidates = 8

-- `o[i]` of `ip.octets()`
abbrev pub octet : ℕ → ℕ → ℕ
octet ip i = ip / 256 ^ (3 - i) % 256

-- The texts of the errors.
pub data Rejection : Type 0 where
  unspecified loopback link_local multicast broadcast documentation special_purpose cgnat private :
      Rejection

abbrev is_documentation : ℕ → Bool
is_documentation ip =
    (octet ip 0 == 192 && octet ip 1 == 0 && octet ip 2 == 2)
    || (octet ip 0 == 198 && octet ip 1 == 51 && octet ip 2 == 100)
    || (octet ip 0 == 203 && octet ip 1 == 0 && octet ip 2 == 113)

abbrev is_private : ℕ → Bool
is_private ip =
    octet ip 0 == 10
    || (octet ip 0 == 172 && leb 16 (octet ip 1) && leb (octet ip 1) 31)
    || (octet ip 0 == 192 && octet ip 1 == 168)

-- `none` is `Ok(())`.
unfoldable pub check_endpoint_ip : ℕ → Bool → Option Rejection
check_endpoint_ip ip allow_private =
    let o0 = octet ip 0 in
    let o1 = octet ip 1 in
    let o2 = octet ip 2 in
    let is_cgnat = o0 == 100 && leb 64 o1 && leb o1 127 in
    if ip == 0 || o0 == 0
    then some unspecified
    else if o0 == 127
    then some loopback
    else if o0 == 169 && o1 == 254
    then some link_local
    else if leb 224 o0 && leb o0 239
    then some multicast
    else if ip == 4294967295 || leb 240 o0
    then some broadcast
    else if is_documentation ip || (o0 == 198 && (o1 == 18 || o1 == 19))
    then some documentation
    else if (o0 == 192 && o1 == 0 && o2 == 0) || (o0 == 192 && o1 == 88 && o2 == 99)
    then some special_purpose
    else if (is_private ip || is_cgnat) && not allow_private
    then some (if is_cgnat then cgnat else private)
    else none

abbrev pub is_ok : Option Rejection → Bool
is_ok none = true
is_ok (some why) = false

abbrev pub is_safe : Bool → ℕ → Bool
is_safe allow_private ip = is_ok (check_endpoint_ip ip allow_private)

abbrev pub retain : (ℕ → Bool) → List ℕ → List ℕ
retain keep [] = []
retain keep (x ∷ xs) = if keep x then x ∷ retain keep xs else retain keep xs

abbrev pub contains : ℕ → List ℕ → Bool
contains x [] = false
contains x (y ∷ ys) = x == y || contains x ys

-- `sort_by_key(u32::from)`
unfoldable pub insert_sorted : ℕ → List ℕ → List ℕ
insert_sorted x [] = x ∷ []
insert_sorted x (y ∷ ys) = if leb x y then x ∷ y ∷ ys else y ∷ insert_sorted x ys

unfoldable pub sort : List ℕ → List ℕ
unfolding insert_sorted
sort [] = []
sort (x ∷ xs) = insert_sorted x (sort xs)

-- `dedup` keeps the first of each run of equal elements.
unfoldable pub dedup_after : ℕ → List ℕ → List ℕ
dedup_after x [] = []
dedup_after x (y ∷ ys) = if x == y then dedup_after x ys else y ∷ dedup_after y ys

unfoldable pub dedup : List ℕ → List ℕ
unfolding dedup_after
dedup [] = []
dedup (x ∷ xs) = x ∷ dedup_after x xs

-- The sorted, deduplicated and truncated list.
unfoldable pub canonical : List ℕ → List ℕ
unfolding sort dedup
canonical xs = take max_endpoint_candidates (dedup (sort xs))

-- The addresses of the answer; `none` is `NoUsableAddresses`.
unfoldable pub canonicalize_answer : Bool → List ℕ → Option (List ℕ)
unfolding canonical
canonicalize_answer allow_private addrs =
    let usable = retain (is_safe allow_private) addrs in
    if length (dedup (sort usable)) == 0 then none else some (canonical usable)

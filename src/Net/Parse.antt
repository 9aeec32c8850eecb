-- ===== src/Net/Parse.antt =====
-- The text forms of addresses in Go's `net` package.
use nitella.Base.{
  ℕ, zero, suc, ◌+◌, ◌-◌, ◌*◌, ◌/◌, ◌%◌, String, Bool, true, false, ◌&&◌, Option, none, some, List,
  [], ◌∷◌, ◌++◌, ltb, leb, ◌==◌, if◌then◌else◌, length, any, codes, cut, split_on, is_digit,
}
use nitella.Net.{Ip, v4, v6, IpNet, to4, network_of}

unfoldable pub digits_value : ℕ → List ℕ → Option ℕ
digits_value acc [] = some acc
digits_value acc (c ∷ cs) = if is_digit c then digits_value (acc * 10 + (c - b'0')) cs else none

abbrev at_most : ℕ → Option ℕ → Option ℕ
at_most bound none = none
at_most bound (some n) = if leb n bound then some n else none

-- A field of a dotted address: no empty field and no leading zero.
unfoldable pub octet : List ℕ → Option ℕ
octet [] = none
octet (c ∷ []) = at_most 255 (digits_value 0 (c ∷ []))
octet (c ∷ d ∷ cs) = if c == b'0' then none else at_most 255 (digits_value 0 (c ∷ d ∷ cs))

abbrev from_octets : Option ℕ → Option ℕ → Option ℕ → Option ℕ → Option ℕ
from_octets (some a) (some b) (some c) (some d) = some (((a * 256 + b) * 256 + c) * 256 + d)
from_octets _ _ _ _ = none

from_fields : List (List ℕ) → Option ℕ
from_fields (a ∷ b ∷ c ∷ d ∷ []) = from_octets (octet a) (octet b) (octet c) (octet d)
from_fields _ = none

unfoldable pub parse_v4 : List ℕ → Option ℕ
unfolding octet digits_value from_fields split_on
parse_v4 s = from_fields (split_on b'.' s)

hex_digit : ℕ → Option ℕ
hex_digit c =
    if is_digit c
    then some (c - b'0')
    else if leb b'a' c && leb c b'f'
    then some (c - b'a' + 10)
    else if leb b'A' c && leb c b'F'
    then some (c - b'A' + 10)
    else none

hex_value : ℕ → List ℕ → Option ℕ
hex_value acc [] = some acc
hex_value acc (c ∷ cs) = elim (hex_digit c) [ none ↦ none | some d ↦ hex_value (acc * 16 + d) cs ]

-- A group of one to four hexadecimal digits.
group : List ℕ → Option ℕ
group s = if ltb 0 (length s) && leb (length s) 4 then hex_value 0 s else none

-- The groups of one side; the last one of the address may be a dotted IPv4 address.
groups : Bool → List (List ℕ) → Option (List ℕ)
groups dotted [] = some []
groups dotted (s ∷ []) =
    if dotted && any (λ c. c == b'.') s
    then elim (parse_v4 s) [ none ↦ none | some n ↦ some (n / 65536 ∷ n % 65536 ∷ []) ]
    else elim (group s) [ none ↦ none | some g ↦ some (g ∷ []) ]
groups dotted (s ∷ t ∷ rest) =
    let tail = groups dotted (t ∷ rest) in
    elim (group s) [ none ↦ none | some g ↦ elim tail [ none ↦ none | some gs ↦ some (g ∷ gs) ] ]

side : Bool → List ℕ → Option (List ℕ)
side dotted [] = some []
side dotted (c ∷ cs) = groups dotted (split_on b':' (c ∷ cs))

join_groups : ℕ → List ℕ → ℕ
join_groups acc [] = acc
join_groups acc (g ∷ gs) = join_groups (acc * 65536 + g) gs

zeros : ℕ → List ℕ
zeros zero = []
zeros (suc n) = 0 ∷ zeros n

abbrev cons_ellipsis : ℕ → Option (List ℕ × List ℕ) → Option (List ℕ × List ℕ)
cons_ellipsis c none = none
cons_ellipsis c (some (before, after)) = some (c ∷ before, after)

-- What stands before and after the first `::`.
ellipsis : List ℕ → Option (List ℕ × List ℕ)
ellipsis [] = none
ellipsis (c ∷ []) = none
ellipsis (c ∷ d ∷ cs) =
    if c == b':' && d == b':' then some ([], cs) else cons_ellipsis c (ellipsis (d ∷ cs))

exactly_8 : Option (List ℕ) → Option ℕ
exactly_8 none = none
exactly_8 (some gs) = if length gs == 8 then some (join_groups 0 gs) else none

fill : Option (List ℕ) → Option (List ℕ) → Option ℕ
fill (some l) (some r) =
    if leb (length l + length r) 7
    then some (join_groups 0 (l ++ (zeros (8 - (length l + length r)) ++ r)))
    else none
fill _ _ = none

unfoldable pub parse_v6 : List ℕ → Option ℕ
unfolding parse_v4 hex_digit hex_value group groups side join_groups zeros ellipsis exactly_8 fill
parse_v6 s = elim (ellipsis s) [
  | none ↦ exactly_8 (side true s)
  | some (l, r) ↦ fill (side false l) (side true r)
]

-- `netip.ParseAddr` without a zone: the first `.` or `:` decides the form.
parse_form : List ℕ → List ℕ → Option Ip
parse_form s [] = none
parse_form s (c ∷ cs) =
    if c == b'.'
    then (elim (parse_v4 s) [ none ↦ none | some n ↦ some (v4 n) ])
    else if c == b':'
    then (elim (parse_v6 s) [ none ↦ none | some n ↦ some (v6 n) ])
    else if c == b'%'
    then none
    else parse_form s cs

unfoldable pub parse_addr : List ℕ → Option Ip
unfolding parse_form parse_v6
parse_addr s = parse_form s s

-- `net.ParseIP`
unfoldable pub parse_ip : String → Option Ip
unfolding parse_addr
parse_ip s = elim (parse_addr (codes s)) [ none ↦ none | some ip ↦ some (to4 ip) ]

abbrev bit_len : Ip → ℕ
bit_len (v4 n) = 32
bit_len (v6 n) = 128

prefix_bits : List ℕ → Option ℕ
prefix_bits [] = none
prefix_bits (c ∷ cs) = digits_value 0 (c ∷ cs)

cidr_of : Option Ip → Option ℕ → Option IpNet
cidr_of (some ip) (some n) = if leb n (bit_len ip) then some (network_of ip n) else none
cidr_of _ _ = none

-- `net.ParseCIDR`, of which the network is used.
unfoldable pub parse_cidr : String → Option IpNet
unfolding parse_addr prefix_bits cidr_of cut
parse_cidr s = elim (cut b'/' (codes s)) [
  | none ↦ none
  | some (addr, mask) ↦ cidr_of (parse_addr addr) (prefix_bits mask)
]

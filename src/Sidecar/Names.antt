-- ===== src/Sidecar/Names.antt =====
-- data/CaptureSaver.cpp: the names of the servers' directories.
use mathlib.Core.List.{map-append}
use telefacet.Shared.{
  ℕ, ◌==◌, true, false, [], ◌∷◌, ◌++◌, map, All, Text, codes, if◌then◌else◌, Bool-cases, ◌≡◌, refl,
  ap, ap₂, ◌∙◌, All-append, inl, inr, arith,
}
use telefacet.Messages.{is_empty_text}
use telefacet.Sidecar.{is_plain, plain_char, before_slash, strip_scheme, is_prefix, server_dir_name}

-- Letters, digits, '.', '_' and '-'.
abbrev pub IsPlain : Text → Type 0
IsPlain t = All (λ c. is_plain c ≡ true) t

plain_char-plain : (c : ℕ) → is_plain (plain_char c) ≡ true
plain_char-plain c = elim (Bool-cases (is_plain c)) [
  | inl e ↦ rw (e, plain_char) e
  | inr e ↦ rw (e, plain_char) refl
]

map-IsPlain_any : (t : Text) → IsPlain (map plain_char t)
map-IsPlain_any [] = tt
map-IsPlain_any (c ∷ t) = (plain_char-plain c, map-IsPlain_any t)

-- A plain text stays as it is.
map-IsPlain : (t : Text) → IsPlain t → map plain_char t ≡ t
map-IsPlain [] h = refl
map-IsPlain (c ∷ t) h = rw (h.0, map-IsPlain t h.1) refl

-- Text without a '/' is all before it.
abbrev pub IsUncut : Text → Type 0
IsUncut t = All (λ c. (c == b'/') ≡ false) t

before_slash-IsUncut : (t : Text) → IsUncut t → before_slash t ≡ t
unfolding before_slash
before_slash-IsUncut [] h = refl
before_slash-IsUncut (c ∷ t) h = rw (h.0, before_slash-IsUncut t h.1) refl

IsPlain-IsUncut : (t : Text) → IsPlain t → IsUncut t
IsPlain-IsUncut [] h = tt
IsPlain-IsUncut (c ∷ t) h = (ground (arith, h.0), IsPlain-IsUncut t h.1)

some-name : (t : Text) → IsPlain t → IsPlain (if is_empty_text t then codes "server" else t)
some-name [] h = (refl, (refl, (refl, (refl, (refl, (refl, tt))))))
some-name (c ∷ t) h = h

host_and_port :
    (host port : Text)
    → IsPlain host
    → IsPlain port
    → map plain_char (before_slash (host ++ (b':' ∷ port))) ≡ host ++ (b'_' ∷ port)
host_and_port host port h p =
    let whole = host ++ (b':' ∷ port) in
    let uncut : IsUncut whole =
      All-append (λ c. (c == b'/') ≡ false) host (b':' ∷ port) (IsPlain-IsUncut host h)
        (refl, IsPlain-IsUncut port p) in
    ap (map plain_char) (before_slash-IsUncut whole uncut)
    ∙ map-append plain_char host (b':' ∷ port)
    ∙ ap₂ (λ a b. a ++ (b'_' ∷ b)) (map-IsPlain host h) (map-IsPlain port p)

nonempty-name :
    (a : Text) (c : ℕ) (b : Text)
    → (if is_empty_text (a ++ (c ∷ b)) then codes "server" else a ++ (c ∷ b)) ≡ a ++ (c ∷ b)
nonempty-name [] c b = refl
nonempty-name (d ∷ a) c b = refl

-- The directory of a server has a name of letters, digits, '.', '_' and '-' alone, and one that is
-- not empty, whatever the address; and it is the host and the port with '_' between them for an
-- address of the scheme ws:// that has these two, of such characters, and nothing more.
pub server_dir_name_lem :
    (address host port : Text)
    → IsPlain host
    → IsPlain port
    → IsPlain (server_dir_name address)
      × ((is_empty_text (server_dir_name address) ≡ false)
          × (server_dir_name (codes "ws://" ++ (host ++ (b':' ∷ port))) ≡ host ++ (b'_' ∷ port)))
unfolding server_dir_name is_prefix strip_scheme
server_dir_name_lem address host port h p =
    let rest = map plain_char (before_slash (strip_scheme address)) in
    (
      some-name rest (map-IsPlain_any (before_slash (strip_scheme address))),
      (nonempty rest, rw (host_and_port host port h p) (nonempty-name host b'_' port)),
    )
  where
    nonempty : (t : Text) → is_empty_text (if is_empty_text t then codes "server" else t) ≡ false
    nonempty [] = refl
    nonempty (c ∷ t) = refl

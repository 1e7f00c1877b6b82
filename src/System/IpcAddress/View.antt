-- ===== src/System/IpcAddress/View.antt =====
-- ipc_address.hpp: which path an address shows.
use cmake_template.Base.{
  ℕ, zero, suc, ◌+◌, ◌-◌, ◌≤◌, ◌<◌, ◌≡◌, refl, ap, sym, ◌∙◌, ◌≢◌, ◌↔◌, true, false, List, [], ◌∷◌,
  ◌++◌, append_assoc, All, length, length-append, replicate, set, ltb, inl, inr, dec_lt, ◌⊎◌, arith,
}
use cmake_template.Core.Contract.{invalid_argument, ok, throws, not_greater}
use cmake_template.System.IpcAddress.{
  Address, path_size, af_local, max_length, zero_address, copy_path, construct, before_nul,
  to_string_view, length_of, eq_bytes, equal,
}

set-append :
    (pre rest : List ℕ) (z c : ℕ) → set (pre ++ (z ∷ rest)) (length pre) c ≡ pre ++ (c ∷ rest)
set-append [] rest z c = refl
set-append (x ∷ pre) rest z c = ap (λ xs. x ∷ xs) (set-append pre rest z c)

copy_path-lem :
    (pre cs : List ℕ) (n : ℕ)
    → length cs ≤ n
    → copy_path (length pre) cs (pre ++ replicate n 0) ≡ pre ++ (cs ++ replicate (n - length cs) 0)
unfolding copy_path
copy_path-lem pre [] n h = ap (λ k. pre ++ replicate k 0) (omega arith)
copy_path-lem pre (c ∷ cs) zero h = absurd (omega arith)
copy_path-lem pre (c ∷ cs) (suc n) h =
    let e : length pre + 1 ≡ length (pre ++ (c ∷ [])) = omega (arith, length-append pre (c ∷ [])) in
    let k : n - length cs ≡ suc n - length (c ∷ cs) = omega arith in
    ap (copy_path (length pre + 1) cs)
      (set-append pre (replicate n 0) 0 c ∙ sym (append_assoc pre (c ∷ []) (replicate n 0)))
    ∙ ap (λ i. copy_path i cs ((pre ++ (c ∷ [])) ++ replicate n 0)) e
    ∙ copy_path-lem (pre ++ (c ∷ [])) cs n (omega arith)
    ∙ append_assoc pre (c ∷ []) (cs ++ replicate (n - length cs) 0)
    ∙ ap (λ i. pre ++ (c ∷ (cs ++ replicate i 0))) k

before_nul-padded : (cs : List ℕ) (n : ℕ) → 0 < n → before_nul (cs ++ replicate n 0) ≡ before_nul cs
unfolding before_nul
before_nul-padded [] zero h = absurd (omega arith)
before_nul-padded [] (suc n) h = refl
before_nul-padded (c ∷ cs) n h = ground (arith, before_nul-padded cs n h)

-- What a path that fits becomes.
pub built : List ℕ → Address
built path = record {
  sun_family = af_local;
  sun_path = path ++ replicate (path_size - length path) 0;
}

pub construct-fits : (path : List ℕ) → length path ≤ max_length → construct path ≡ ok (built path)
unfolding construct not_greater built zero_address
construct-fits path h =
    let fits : ltb max_length (length path) ≡ false = ground arith in
    rw fits (
      ap (λ bytes. ok (record { sun_family = af_local; sun_path = bytes }))
        (copy_path-lem [] path path_size (omega arith)))

pub view-built :
    (path : List ℕ) → length path ≤ max_length → to_string_view (built path) ≡ before_nul path
unfolding to_string_view built
view-built path h = before_nul-padded path (path_size - length path) (omega arith)

construct-long :
    (path : List ℕ)
    → max_length < length path
    → construct path ≡ throws (invalid_argument "socket path is too long")
unfolding construct not_greater
construct-long path h = let long : ltb max_length (length path) ≡ true = ground arith in rw long

before_nul-whole : (path : List ℕ) → All (λ c. c ≢ 0) path → before_nul path ≡ path
unfolding before_nul
before_nul-whole [] h = refl
before_nul-whole (c ∷ cs) h = ground (arith, before_nul-whole cs h.1)

length-before_nul : (cs : List ℕ) → length (before_nul cs) ≤ length cs
unfolding before_nul
length-before_nul [] = omega arith
length-before_nul (c ∷ cs) = ground (arith, length-before_nul cs)

eq_bytes_iff : (xs ys : List ℕ) → (eq_bytes xs ys ≡ true) ↔ (xs ≡ ys)
eq_bytes_iff [] [] = (λ _. refl, λ _. refl)
eq_bytes_iff [] (y ∷ ys) = (λ h. cc, λ h. cc)
eq_bytes_iff (x ∷ xs) [] = (λ h. cc, λ h. cc)
eq_bytes_iff (x ∷ xs) (y ∷ ys) =
    (ground (arith, (eq_bytes_iff xs ys).0), ground (arith, (eq_bytes_iff xs ys).1))

-- A socket path survives the round trip through `::sockaddr_un`. For every path without zero bytes:
-- if it has at most 107 bytes, then an address is constructed, its string view is the path, and
-- `length` is the length of the path; and otherwise `std::invalid_argument` is thrown.
pub construct-round_trip :
    (path : List ℕ)
    → All (λ c. c ≢ 0) path
    → ((length path ≤ max_length)
        × (a : Address) × (construct path ≡ ok a)
        × (to_string_view a ≡ path)
        × (length_of a ≡ length path))
      ⊎ ((max_length < length path)
          × (construct path ≡ throws (invalid_argument "socket path is too long")))
unfolding length_of
construct-round_trip path h = elim (dec_lt max_length (length path)) [
  | yes long ↦ inr (long, construct-long path long)
  | no fits ↦
      let fits' : length path ≤ max_length = omega arith in
      let view = view-built path fits' ∙ before_nul-whole path h in
      inl (fits', built path, construct-fits path fits', view, ap length view)
]

equal-views : (a b : Address) → equal a b ≡ eq_bytes (to_string_view a) (to_string_view b)
unfolding equal to_string_view
equal-views a b = refl

pub equal_iff : (a b : Address) → (equal a b ≡ true) ↔ (to_string_view a ≡ to_string_view b)
equal_iff a b = rw equal-views (eq_bytes_iff (to_string_view a) (to_string_view b))

-- A path with a zero byte is cut there: the string view of a constructed address shows the path up to
-- its first zero byte, it never exceeds the 107 bytes of `max_length`, and two constructed addresses
-- are equal exactly if their paths agree up to the first zero byte.
pub equal-construct :
    (p q : List ℕ)
    → length p ≤ max_length
    → length q ≤ max_length
    → (a b : Address) × (construct p ≡ ok a)
      × (construct q ≡ ok b)
      × (to_string_view a ≡ before_nul p)
      × (length_of a ≤ max_length)
      × ((equal a b ≡ true) ↔ (before_nul p ≡ before_nul q))
unfolding length_of
equal-construct p q h k = (
  built p,
  built q,
  construct-fits p h,
  construct-fits q k,
  view-built p h,
  omega (arith, ap length (view-built p h), length-before_nul p),
  rw (equal-views, view-built p h, view-built q k) (eq_bytes_iff (before_nul p) (before_nul q)),
)

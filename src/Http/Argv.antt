-- ===== src/Http/Argv.antt =====
-- proxy/psahttp/httpmessage.C: the arguments that a message is passed to an application with.
use tsm_proxy.Prelude.{
  ℕ, ◌+◌, ◌-◌, ◌≤◌, ◌≡◌, refl, ap, inl, inr, ◌⊎◌, List, [], ◌∷◌, ◌++◌, ltb, if◌then◌else◌, length,
  length-append, Bool-cases, arith,
}
use tsm_proxy.Chars.{bytes, before, c_string}
use tsm_proxy.Http.{Header, HttpMessage}

-- What is passed is what c_str() gives, up to the first NULL.
-- The loop of BUILD_ARGV from argc on: what it writes, and the headers that are left.
unfoldable pub argv_loop : (size argc : ℕ) → List Header → List (List ℕ) × List Header
unfolding before
argv_loop size argc [] = ([], [])
argv_loop size argc (h ∷ hs) =
    let (more, lost) = argv_loop size (argc + 2) hs in
    if ltb argc (size - 1) then (c_string h.name ∷ c_string h.value ∷ more, lost) else ([], h ∷ hs)

abbrev pub first_argv : HttpMessage → List (List ℕ)
first_argv m =
    c_string m.path ∷ c_string m.query ∷ c_string m.content_length_str ∷ c_string m.content ∷ []

abbrev lost_one : List Header → ℕ → ℕ
lost_one [] n = n
lost_one (h ∷ hs) n = n + 1

-- The arguments, and the counter of the messages that lost a header, _headerLostCounter.
unfoldable pub build_argv : ℕ → HttpMessage → ℕ → List (List ℕ) × ℕ
unfolding argv_loop before
build_argv size m counter =
    let (more, lost) = argv_loop size 4 m.header_list in
    (first_argv m ++ more, lost_one lost counter)

unfoldable pub build_dll_call_argv : ℕ → HttpMessage → ℕ → List (List ℕ) × ℕ
unfolding build_argv
build_dll_call_argv size m counter = build_argv size m counter

unfoldable pub all_headers : List Header → List ℕ
all_headers [] = []
all_headers (h ∷ hs) = h.name ++ 58 ∷ 32 ∷ (h.value ++ 13 ∷ 10 ∷ all_headers hs)

unfoldable pub build_async_app_argv : ℕ → HttpMessage → ℕ → List (List ℕ) × ℕ
unfolding build_argv all_headers
build_async_app_argv size m counter =
    let (argv, n) = build_argv size m counter in
    (argv ++ bytes "All-Header" ∷ all_headers m.header_list ∷ [], n)

-- Names and values in turn.
abbrev pub flat : List Header → List (List ℕ)
flat [] = []
flat (h ∷ hs) = c_string h.name ∷ c_string h.value ∷ flat hs

-- The headers are kept from the first on, and one is left only where there is no room for it.
abbrev pub Splits : ℕ → ℕ → List Header → List (List ℕ) × List Header → Type 0
Splits size argc hs r =
    (kept : List Header) × (hs ≡ kept ++ r.1)
    × (r.0 ≡ flat kept)
    × (argc ≤ size → argc + length r.0 ≤ size)
    × ((r.1 ≡ []) ⊎ (size ≤ argc + length r.0 + 1))

argv_loop-Splits : (size argc : ℕ) (hs : List Header) → Splits size argc hs (argv_loop size argc hs)
unfolding argv_loop
argv_loop-Splits size argc [] = ([], refl, refl, (λ h. omega arith), inl refl)
argv_loop-Splits size argc (h ∷ hs) = elim (Bool-cases (ltb argc (size - 1))) [
  | inr e ↦ rw e ([], refl, refl, (λ k. omega arith), inr (ground arith))
  | inl e ↦
      let (kept, all, same, room, full) = argv_loop-Splits size (argc + 2) hs in
      rw e (
        h ∷ kept,
        ap (λ t. h ∷ t) all,
        ap (λ t. c_string h.name ∷ c_string h.value ∷ t) same,
        (λ k. omega (arith, room (ground arith))),
        elim full [ inl f ↦ inl f | inr f ↦ inr (omega (arith, f)) ],
      )
]

-- The arguments are the path, the query, the length and the content, and then the names and values
-- of the headers from the first on, each up to its first NULL. They fit where there is room for the first four, and with the two
-- more for an application there are at most two beyond; a header is left out only where at most one
-- place is free.
pub build_argv-Fits :
    (size : ℕ) (m : HttpMessage) (counter : ℕ)
    → 4 ≤ size
    → let argv = (build_dll_call_argv size m counter).0 in
      (kept : List Header) × (lost : List Header) × (m.header_list ≡ kept ++ lost)
      × (argv ≡ first_argv m ++ flat kept)
      × (length argv ≤ size)
      × (length (build_async_app_argv size m counter).0 ≤ size + 2)
      × ((lost ≡ []) ⊎ (size ≤ length argv + 1))
unfolding build_dll_call_argv build_async_app_argv build_argv
build_argv-Fits size m counter h =
    let (kept, all, same, room, full) = argv_loop-Splits size 4 m.header_list in
    let argv = (build_argv size m counter).0 in
    (
      kept,
      (argv_loop size 4 m.header_list).1,
      all,
      ap (λ t. first_argv m ++ t) same,
      omega (arith, room h),
      omega
          (arith, room h, length-append argv (bytes "All-Header" ∷ all_headers m.header_list ∷ [])),
      elim full [ inl f ↦ inl f | inr f ↦ inr (omega (arith, f)) ],
    )

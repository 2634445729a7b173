-- ===== src/Loader/Search/First.antt =====
-- engine/main.c: `open_image_file` takes the first image on the path.
use gforth.Prelude.{
  ℕ, zero, suc, ◌≤◌, ◌<◌, ◌≡◌, refl, ◌∙◌, sym, ap, ap₂, arith, Bool, true, false, ◌==◌, Bool-cases,
  Option-cases, inl, inr, if◌then◌else◌, Option, none, some, ◌>>=◌, List, [], ◌∷◌, ◌++◌, length,
  take, length-append, append-nil,
}
use gforth.Loader.{Opened, checkimage}
use gforth.Loader.Search.{
  has_char, onlypath, ends_with_dirsep, fullfilename, first_dir, other_dirs, checkimage_in,
  search_path, check_exe, open_image_file,
}

abbrev pub or_else : Option Opened → Option Opened → Option Opened
or_else none o = o
or_else (some image_file) o = some image_file

-- The first of the directories that gives an image.
unfoldable pub first_of : (List ℕ → Option Opened) → List (List ℕ) → Option Opened
first_of try [] = none
first_of try (d ∷ dirs) = or_else (try d) (first_of try dirs)

-- Directories with PATHSEP between them, and behind the last one if `closed`.
unfoldable pub join : Bool → List (List ℕ) → List ℕ
join closed [] = []
join closed (d ∷ []) = d ++ (if closed then 58 ∷ [] else [])
join closed (d ∷ (e ∷ dirs)) = d ++ (58 ∷ join closed (e ∷ dirs))

-- No directory has a PATHSEP, and the last one is not empty or has one behind it.
unfoldable pub IsPath : Bool → List (List ℕ) → Type 0
IsPath closed [] = Unit
IsPath closed (d ∷ []) = (has_char 58 d ≡ false) × (closed ≡ false → 0 < length d)
IsPath closed (d ∷ (e ∷ dirs)) = (has_char 58 d ≡ false) × IsPath closed (e ∷ dirs)

-- What stands between a directory and the name of the image: nothing for the current directory and
-- behind a DIRSEP, and a DIRSEP otherwise.
unfoldable pub separator : List ℕ → List ℕ
separator [] = []
separator (c ∷ []) = if c == 47 then [] else 47 ∷ []
separator (c ∷ (d ∷ dir)) = separator (d ∷ dir)

-- The image with a name in a directory, if the file can be opened and `checkimage` accepts it.
unfoldable pub opened_in : (List ℕ → Option (List ℕ)) → ℕ → List ℕ → List ℕ → Option Opened
opened_in open_file sizebyte imagename dir = do
  file ← open_file ((dir ++ separator dir) ++ imagename)
  checkimage sizebyte file

-- The part of the executable's name in front of its last DIRSEP, if there is one: for `/gforth` it is
-- empty, as the current directory is.
unfoldable pub exe_dirs : List ℕ → List (List ℕ)
exe_dirs progname = elim (onlypath progname) [ some n ↦ take n progname ∷ [] | none ↦ [] ]

-- The directories in the order of the search.
unfoldable pub directories : List ℕ → List ℕ → List (List ℕ) → List (List ℕ)
directories progname imagename dirs =
    if has_char 47 imagename then [] ∷ [] else exe_dirs progname ++ dirs

separator_lem :
    (c : ℕ) (dir imagename : List ℕ)
    → ((c ∷ dir) ++ separator (c ∷ dir)) ++ imagename ≡ (
        if ends_with_dirsep (c ∷ dir)
        then (c ∷ dir) ++ imagename
        else (c ∷ dir) ++ (47 ∷ imagename))
unfolding separator ends_with_dirsep
separator_lem c [] imagename = elim (Bool-cases (c == 47)) [
  | inl slash ↦ rw slash refl
  | inr plain ↦ rw plain refl
]
separator_lem c (d ∷ dir) imagename =
    ap (λ s. c ∷ s) (separator_lem d dir imagename)
    ∙ elim (Bool-cases (ends_with_dirsep (d ∷ dir))) [
      | inl slash ↦ rw slash refl
      | inr plain ↦ rw plain refl
    ]

fullfilename-separator :
    (dir imagename : List ℕ) → fullfilename dir imagename ≡ (dir ++ separator dir) ++ imagename
unfolding fullfilename separator
fullfilename-separator [] imagename = refl
fullfilename-separator (c ∷ dir) imagename = sym (separator_lem c dir imagename)

checkimage_in-opened_in :
    (open_file : List ℕ → Option (List ℕ)) (sizebyte : ℕ) (imagename dir : List ℕ)
    → checkimage_in open_file sizebyte imagename dir ≡ opened_in open_file sizebyte imagename dir
unfolding checkimage_in opened_in
checkimage_in-opened_in open_file sizebyte imagename dir =
    ap (λ name. open_file name >>= checkimage sizebyte) (fullfilename-separator dir imagename)

split_last : (d : List ℕ) → has_char 58 d ≡ false → (first_dir d ≡ d) × (other_dirs d ≡ [])
unfolding first_dir other_dirs has_char
split_last [] plain = (refl, refl)
split_last (c ∷ d) plain =
    let here : (c == 58) ≡ false = ground (arith, plain) in
    let (first, others) = split_last d (ground (arith, plain)) in
    rw here (ap (λ x. c ∷ x) first, others)

split_path :
    (d path : List ℕ)
    → has_char 58 d ≡ false
    → (first_dir (d ++ (58 ∷ path)) ≡ d) × (other_dirs (d ++ (58 ∷ path)) ≡ path)
unfolding first_dir other_dirs has_char
split_path [] path plain = (refl, refl)
split_path (c ∷ d) path plain =
    let here : (c == 58) ≡ false = ground (arith, plain) in
    let (first, others) = split_path d path (ground (arith, plain)) in
    rw here (ap (λ x. c ∷ x) first, others)

module _ (open_file : List ℕ → Option (List ℕ)) (sizebyte : ℕ) (imagename : List ℕ) where
  abbrev try : List ℕ → Option Opened
  try dir = opened_in open_file sizebyte imagename dir

  same_file : (dir : List ℕ) → checkimage_in open_file sizebyte imagename dir ≡ try dir
  same_file dir = checkimage_in-opened_in open_file sizebyte imagename dir

  abbrev search : ℕ → List ℕ → Option Opened
  search rounds path = search_path open_file sizebyte rounds imagename path

  search_round :
      (n : ℕ) (path : List ℕ)
      → 0 < length path
      → search (suc n) path ≡ or_else (try (first_dir path)) (search n (other_dirs path))
  unfolding search_path
  search_round n [] some_char = absurd (omega (arith, some_char))
  search_round n (c ∷ path) some_char =
      let same = same_file (first_dir (c ∷ path)) in
      elim (Option-cases (try (first_dir (c ∷ path)))) [
        | inl e ↦ rw (e, same ∙ e, search_path) refl
        | inr (o, e) ↦ rw (e, same ∙ e, search_path) refl
      ]

  search-none : (n : ℕ) → search n [] ≡ none
  unfolding search_path
  search-none zero = refl
  search-none (suc n) = refl

  search_last :
      (closed : Bool) (d : List ℕ) (n : ℕ)
      → has_char 58 d ≡ false
      → (closed ≡ false → 0 < length d)
      → length (d ++ (if closed then 58 ∷ [] else [])) ≤ n
      → search n (d ++ (if closed then 58 ∷ [] else [])) ≡ or_else (try d) none
  search_last true d zero plain ends fits = absurd (omega (arith, fits, length-append d (58 ∷ [])))
  search_last true d (suc n) plain ends fits =
      let (first, others) = split_path d [] plain in
      search_round n (d ++ (58 ∷ [])) (omega (arith, length-append d (58 ∷ [])))
      ∙ ap₂ or_else (ap try first) (ap (search n) others ∙ search-none n)
  search_last false d zero plain ends fits =
      absurd (omega (arith, fits, length-append d [], ends refl))
  search_last false d (suc n) plain ends fits =
      let (first, others) = split_last d plain in
      ap (search (suc n)) (append-nil d)
      ∙ search_round n d (ends refl)
      ∙ ap₂ or_else (ap try first) (ap (search n) others ∙ search-none n)

  search-first_of :
      (closed : Bool) (dirs : List (List ℕ)) (n : ℕ)
      → IsPath closed dirs
      → length (join closed dirs) ≤ n
      → search n (join closed dirs) ≡ first_of try dirs
  unfolding join IsPath first_of
  search-first_of closed [] n is fits = search-none n
  search-first_of closed (d ∷ (e ∷ dirs)) zero is fits =
      absurd (omega (arith, fits, length-append d (58 ∷ join closed (e ∷ dirs))))
  search-first_of closed (d ∷ (e ∷ dirs)) (suc n) (plain, is) fits =
      let later = join closed (e ∷ dirs) in
      let counted = length-append d (58 ∷ later) in
      let (first, others) = split_path d later plain in
      let rest = search-first_of closed (e ∷ dirs) n is (omega (arith, fits, counted)) in
      search_round n (d ++ (58 ∷ later)) (omega (arith, counted))
      ∙ ap₂ or_else (ap try first) (ap (search n) others ∙ rest)
  search-first_of closed (d ∷ []) n is fits = search_last closed d n is.0 is.1 fits

  or_else-none : (o : Option Opened) → or_else o none ≡ o
  or_else-none none = refl
  or_else-none (some o) = refl

  or_else_lem :
      (a b : Option Opened) → elim a [ some image_file ↦ some image_file | none ↦ b ] ≡ or_else a b
  or_else_lem none b = refl
  or_else_lem (some o) b = refl

  first_of-exe_dirs :
      (progname : List ℕ) (dirs : List (List ℕ))
      → first_of try (exe_dirs progname ++ dirs)
        ≡ or_else (check_exe open_file sizebyte progname imagename) (first_of try dirs)
  unfolding first_of exe_dirs check_exe
  first_of-exe_dirs progname dirs = elim (Option-cases (onlypath progname)) [
    | inl e ↦ rw (e, first_of, exe_dirs, check_exe) refl
    | inr (n, e) ↦
        rw (e, first_of, exe_dirs, check_exe)
          (ap (λ o. or_else o (first_of try dirs)) (sym (same_file (take n progname))))
  ]

  -- `open_image_file`, for a path of any directories with a PATHSEP between them, and possibly behind the
  -- last one: for a name without DIRSEP it takes the first image that `checkimage` accepts, in the part
  -- of `progname` in front of its last DIRSEP, if it has one, and then in the directories in their
  -- order; for a name with DIRSEP it looks for this name only; and it returns NULL when there is none.
  -- The file tried in a directory has the directory's name, a DIRSEP unless the directory is empty or
  -- ends with one, and the name of the image; so for a `progname` of `/gforth` the first file is
  -- that of the current directory.
  pub open_image_file-first_of :
      (progname : List ℕ) (closed : Bool) (dirs : List (List ℕ))
      → IsPath closed dirs
      → open_image_file open_file sizebyte progname imagename (join closed dirs)
        ≡ first_of try (directories progname imagename dirs)
  unfolding open_image_file directories first_of
  open_image_file-first_of progname closed dirs is =
      let exe = check_exe open_file sizebyte progname imagename in
      let later = search (length (join closed dirs)) (join closed dirs) in
      let found = search-first_of closed dirs (length (join closed dirs)) is (omega arith) in
      elim (Bool-cases (has_char 47 imagename)) [
        | inl e ↦ rw e (same_file [] ∙ sym (or_else-none (try [])))
        | inr e ↦
            rw e (
              or_else_lem exe later
              ∙ ap (or_else exe) found
              ∙ sym (first_of-exe_dirs progname dirs))
      ]

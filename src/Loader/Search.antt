-- ===== src/Loader/Search.antt =====
-- engine/main.c: the search for the image file in `open_image_file`. `open_file` is `openimage`: the bytes of
-- the file with a name, if it can be opened.
pub mod First
use gforth.Prelude.{
  ℕ, zero, suc, ◌+◌, ◌≤◌, ◌<◌, ◌≡◌, refl, ◌∙◌, sym, ap, arith, Bool, true, false, not, ◌||◌, ◌==◌,
  Bool-cases, inl, inr, if◌then◌else◌, Option, none, some, ◌>>=◌, List, [], ◌∷◌, ◌++◌, length, take,
}
use gforth.Loader.{Opened, checkimage}

-- `strchr(s, c)!=NULL`
unfoldable pub has_char : ℕ → List ℕ → Bool
has_char c [] = false
has_char c (a ∷ s) = a == c || has_char c s

-- `onlypath`: the number of characters in front of the last DIRSEP.
unfoldable pub onlypath : List ℕ → Option ℕ
onlypath [] = none
onlypath (c ∷ s) = elim (onlypath s) [
  | some n ↦ some (suc n)
  | none ↦ if c == 47 then some 0 else none
]

unfoldable pub ends_with_dirsep : List ℕ → Bool
ends_with_dirsep [] = false
ends_with_dirsep (c ∷ []) = c == 47
ends_with_dirsep (c ∷ (d ∷ s)) = ends_with_dirsep (d ∷ s)

-- The name that `checkimage` builds from `path[0:len]` and the name of the image.
unfoldable pub fullfilename : List ℕ → List ℕ → List ℕ
fullfilename [] imagename = imagename
fullfilename (c ∷ path) imagename =
    if ends_with_dirsep (c ∷ path) then (c ∷ path) ++ imagename else (c ∷ path) ++ (47 ∷ imagename)

-- The path up to PATHSEP, and what is behind it.
unfoldable pub first_dir : List ℕ → List ℕ
first_dir [] = []
first_dir (c ∷ path) = let rest = first_dir path in if c == 58 then [] else c ∷ rest

unfoldable pub other_dirs : List ℕ → List ℕ
other_dirs [] = []
other_dirs (c ∷ path) = let rest = other_dirs path in if c == 58 then path else rest

module _ (open_file : List ℕ → Option (List ℕ)) (sizebyte : ℕ) where
  -- `checkimage`, with the file that it opens.
  unfoldable pub checkimage_in : List ℕ → List ℕ → Option Opened
  checkimage_in imagename dir = do
    file ← open_file (fullfilename dir imagename)
    checkimage sizebyte file

  -- `do … while (image_file==NULL)`, for at most so many rounds.
  unfoldable pub search_path : ℕ → List ℕ → List ℕ → Option Opened
  search_path zero imagename path = none
  search_path (suc rounds) imagename [] = none
  search_path (suc rounds) imagename (c ∷ path) =
      let rest = search_path rounds imagename (other_dirs (c ∷ path)) in
      elim (checkimage_in imagename (first_dir (c ∷ path))) [
        | some image_file ↦ some image_file
        | none ↦ rest
      ]

  -- The part of `progname` in front of its last DIRSEP first, if it has one.
  unfoldable pub check_exe : List ℕ → List ℕ → Option Opened
  check_exe progname imagename = elim (onlypath progname) [
    | some n ↦ checkimage_in imagename (take n progname)
    | none ↦ none
  ]

  -- Each round takes a character of the path at least.
  unfoldable pub open_image_file : List ℕ → List ℕ → List ℕ → Option Opened
  open_image_file progname imagename path =
      if not (has_char 47 imagename)
      then elim (check_exe progname imagename) [
        | some image_file ↦ some image_file
        | none ↦ search_path (length path) imagename path
      ]
      else checkimage_in imagename []

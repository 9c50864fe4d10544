-- ===== src/Sd.antt =====
-- The card files of src/sd_file.c: the order of dated directories, the search for the oldest one, and
-- the deletion of a directory. `statfs`, `readdir`, `access` and the shell are the caller's: what they
-- return stands in the arguments.
pub mod Search
pub mod Delete
mod Tests
use Prim.Native.String.{String}
use avserver.Base.{
  ℕ, zero, suc, ◌+◌, ◌*◌, ◌/◌, ◌==◌, ltb, ℤ, pos, minus_one, Bool, true, false, ◌||◌, ◌&&◌, not,
  ltb_ℤ, ◌/ℤ◌, eqb_ℤ, if◌then◌else◌, Option, none, some, List, [], ◌∷◌,
}

-- `gSdStatus`: whether SD_MOUNTED is set.
unfoldable pub get_sd_status : Bool → Bool
get_sd_status mounted = mounted

-- The results of `umount` and `mount` are not looked at.
unfoldable pub check_sd_card : Bool → ℤ × Bool
check_sd_card mounted = (pos 0, true)

-- With the result of `umount`.
unfoldable pub sd_unmount : ℤ → Bool → ℤ × Bool
sd_unmount ret mounted = (ret, if eqb_ℤ ret (pos 0) then false else mounted)

-- Whether the two attempts to make a file system, and the two to mount it, fail.
unfoldable pub sd_format : Bool → Bool → Bool → Bool → ℤ
sd_format mk1 mk2 mount1 mount2 = if (mk1 && mk2) || (mount1 && mount2) then minus_one else pos 0

-- The free space in KB, for the size and the number of free blocks.
unfoldable pub free_kb : ℕ → ℕ → ℕ
free_kb bsize bfree = bsize * bfree / 1024

-- A name as `atoi` reads it; `none` is NULL.
unfoldable pub is_gt : Option ℤ → Option ℤ → ℤ
is_gt dir_1 none = minus_one
is_gt none (some b) = pos 0
is_gt (some a) (some b) =
    if ltb_ℤ (a /ℤ 10000) (b /ℤ 10000)
    then pos 1
    else if ltb_ℤ (a /ℤ 100) (b /ℤ 100)
    then pos 1
    else if ltb_ℤ a b
    then pos 1
    else pos 0

-- An entry of the card's root: its name, its first character, and what IS_DIR and `atoi` say of it.
pub record Entry : Type 0 where
  pub name : String
  pub first : ℕ
  pub is_dir : Bool
  pub number : ℤ

-- The variables of the loop.
pub record Found : Type 0 where
  pub dir : Option Entry
  pub first_dir : Bool
  pub fnd : ℕ

unfoldable pub number_of : Option Entry → Option ℤ
number_of none = none
number_of (some e) = some e.number

-- One entry. The test of the first character is that of the code: it looks at the same character
-- twice, for '2' (50) and for '0' (48).
unfoldable pub look : Entry → Found → Found
unfolding is_gt number_of
look e f =
    if not e.is_dir
    then f
    else if not (e.first == 50) || not (e.first == 48)
    then f
    else if f.first_dir
    then record { dir = some e; first_dir = false; fnd = f.fnd }
    else (let older : Bool = eqb_ℤ (is_gt (number_of f.dir) (some e.number)) (pos 0) in
        record f { dir = if older then some e else f.dir; fnd = 1 })

unfoldable pub look_all : List Entry → Found → Found
look_all [] f = f
look_all (e ∷ es) f = look_all es (look e f)

-- The first hour that has a directory, of those from i on.
unfoldable pub first_hour : ℕ → ℕ → (ℕ → Bool) → Option ℕ
first_hour zero i has = none
first_hour (suc n) i has =
    let rest : Option ℕ = first_hour n (suc i) has in if has i then some i else rest

-- The result, and the day and the hour that were found. `none` of the entries is a root that does not
-- open; `has_hour` is `access`.
unfoldable pub find_oldest_dir_from_sdroot :
    Option (List Entry) → (Entry → ℕ → Bool) → ℕ × Option Entry × Option ℕ
unfolding look_all first_hour
find_oldest_dir_from_sdroot none has_hour = (0, none, none)
find_oldest_dir_from_sdroot (some entries) has_hour =
    let f : Found = look_all entries (record { dir = none; first_dir = true; fnd = 0 }) in
    let hour : Option ℕ = elim f.dir [ none ↦ none | some d ↦ first_hour 24 0 (has_hour d) ] in
    if f.fnd == 1
    then (elim hour [
      | none ↦ (f.fnd, f.dir, none)
      | some h ↦ (2 + (if h == 23 then 1 else 0), f.dir, some h)
    ])
    else (f.fnd, f.dir, none)

-- The loop of `prepare_free_space` (src/avi_save.c): `frees` is the free space after each deletion, the
-- current one first. The result, and how many directories were deleted; `none` where the readings
-- run out.
unfoldable pub free_loop_kb :
    ℕ → Option (List Entry) → (Entry → ℕ → Bool) → List ℕ → ℕ → Option (ℤ × ℕ)
unfolding find_oldest_dir_from_sdroot
free_loop_kb space root has_hour [] deleted = none
free_loop_kb space root has_hour (free ∷ frees) deleted =
    let rest : Option (ℤ × ℕ) = free_loop_kb space root has_hour frees (suc deleted) in
    if not (ltb free space)
    then some (pos 0, deleted)
    else if (find_oldest_dir_from_sdroot root has_hour).0 == 0
    then some (minus_one, deleted)
    else rest

unfoldable pub prepare_free_space :
    ℕ → Option (List Entry) → (Entry → ℕ → Bool) → List ℕ → Option (ℤ × ℕ)
unfolding free_loop_kb
prepare_free_space space root has_hour frees = free_loop_kb space root has_hour frees 0

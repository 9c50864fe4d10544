-- ===== src/Sd/Delete.antt =====
-- `del_dir` of src/sd_file.c 167-184 and 248-272, on a tree of files and directories.
use Prim.Native.String.{String, len}
use avserver.Base.{
  ℕ, zero, suc, ◌+◌, ◌-◌, ◌≤◌, ◌<◌, Bool-cases, inl, inr, ◌≡◌, refl, ap, arith, ltb, Bool, true,
  if◌then◌else◌, Option, none, some,
}

mutual
  -- What stands at a path; `other` is neither a file nor a directory. The Boolean says whether the
  -- card lets it be removed.
  pub data Node : Type 0 where
    file : Bool → Node
    dir : Bool → Nodes → Node
    other : Node

  -- The entries, less `.` and `..`, which are passed over.
  pub data Nodes : Type 0 where
    nil : Nodes
    cons : String → Node → Nodes → Nodes

-- What is left at a path after `del_dir` and then `rmdir`, which takes an empty directory only.
unfoldable pub rmdir : Option Node → Option Node
rmdir (some (Node.dir true Nodes.nil)) = none
rmdir n = n

unfoldable pub keep : String → Option Node → Nodes → Nodes
keep name none ns = ns
keep name (some n) ns = Nodes.cons name n ns

-- `DIR_LEN`
abbrev pub dir_len : ℕ
dir_len = 128

-- The length of the path of an entry.
abbrev pub joined : ℕ → String → ℕ
joined path name = path + 1 + len name

unfoldable pub left_open : Bool → Option (Nodes × ℕ) → Option (Option Node × ℕ)
left_open removable none = none
left_open removable (some (ms, left)) = some (some (Node.dir removable ms), left)

unfoldable pub with_entry : String → Option Node → Option (Nodes × ℕ) → Option (Nodes × ℕ)
unfolding keep rmdir
with_entry name m none = none
with_entry name m (some (ms, left)) = some (keep name (rmdir m) ms, left)

-- The rest of the entries, after one.
unfoldable pub go_on :
    String → (ℕ → Option (Nodes × ℕ)) → Option (Option Node × ℕ) → Option (Nodes × ℕ)
unfolding with_entry
go_on name rest none = none
go_on name rest (some (m, left)) = with_entry name m (rest left)

unfoldable mutual
  unfolding left_open go_on

  -- What is left of a node whose path has the given length, and how many directories can still be
  -- opened: none that was opened is ever closed. The outer `none` is a fault: `readdir` on a path
  -- that does not open, or a path that does not fit into its buffer.
  pub del_dir : ℕ → Node → ℕ → Option (Option Node × ℕ)
  del_dir path (Node.file removable) fds =
      some (if removable then none else some (Node.file removable), fds)
  del_dir path Node.other fds = none
  del_dir path (Node.dir removable ns) zero = none
  del_dir path (Node.dir removable ns) (suc fds) = left_open removable (del_all path ns fds)

  pub del_all : ℕ → Nodes → ℕ → Option (Nodes × ℕ)
  del_all path Nodes.nil fds = some (Nodes.nil, fds)
  del_all path (Nodes.cons name n ns) fds =
      let next = go_on name (del_all path ns) (del_dir (joined path name) n fds) in
      if ltb (joined path name) dir_len then next else none

abbrev mutual
  -- A tree of files and directories that can be removed, whose paths fit.
  pub IsPlain : ℕ → Node → Type 0
  IsPlain path (Node.file removable) = removable ≡ true
  IsPlain path Node.other = ⊥
  IsPlain path (Node.dir removable ns) = (removable ≡ true) × ArePlain path ns

  pub ArePlain : ℕ → Nodes → Type 0
  ArePlain path Nodes.nil = Unit {0}
  ArePlain path (Nodes.cons name n ns) =
      (joined path name < dir_len) × IsPlain (joined path name) n × ArePlain path ns

unfoldable mutual
  -- How many directories a node and a list of entries have.
  pub dirs : Node → ℕ
  dirs (Node.file removable) = 0
  dirs Node.other = 0
  dirs (Node.dir removable ns) = suc (dirs_all ns)

  pub dirs_all : Nodes → ℕ
  dirs_all Nodes.nil = 0
  dirs_all (Nodes.cons name n ns) = dirs n + dirs_all ns

short : (m n : ℕ) → m < n → ltb m n ≡ true
short m n h = ground (arith, h)

mutual
  unfolding del_dir rmdir del_all keep dirs left_open go_on with_entry

  -- A node is gone, after `rmdir`, where its directories can be opened.
  rmdir-del_dir :
      (path : ℕ) (n : Node) (fds left : ℕ)
      → IsPlain path n
      → fds ≡ dirs n + left
      → (m : Option Node) × (del_dir path n fds ≡ some (m, left)) × (rmdir m ≡ none)
  rmdir-del_dir path (Node.file removable) fds left p e =
      (none, rw p (ap (λ k. some (none, k)) (omega (arith, e))), refl)
  rmdir-del_dir path Node.other fds left p e = absurd p
  rmdir-del_dir path (Node.dir removable ns) zero left p e = absurd (omega (arith, e))
  rmdir-del_dir path (Node.dir removable ns) (suc fds) left (b, p) e = (
    some (Node.dir removable Nodes.nil),
    rw (del_all-plain path ns fds left p (omega (arith, e))) refl,
    rw b refl,
  )

  del_all-plain :
      (path : ℕ) (ns : Nodes) (fds left : ℕ)
      → ArePlain path ns
      → fds ≡ dirs_all ns + left
      → del_all path ns fds ≡ some (Nodes.nil, left)
  del_all-plain path Nodes.nil fds left p e = ap (λ k. some (Nodes.nil, k)) (omega (arith, e))
  del_all-plain path (Nodes.cons name n ns) fds left (l, p, ps) e =
      let (m, d, gone) =
        rmdir-del_dir (joined path name) n fds (dirs_all ns + left) p (omega (arith, e)) in
      rw
        (
          short (joined path name) dir_len l,
          d,
          del_all-plain path ns (dirs_all ns + left) left ps refl,
          gone,
        )
        refl

mutual
  unfolding del_dir del_all dirs left_open go_on with_entry

  -- With too few directories to open, the call faults.
  starved :
      (path : ℕ) (n : Node) (fds : ℕ) → IsPlain path n → fds < dirs n → del_dir path n fds ≡ none
  starved path (Node.file removable) fds p l = absurd (omega (arith, l))
  starved path Node.other fds p l = absurd p
  starved path (Node.dir removable ns) zero p l = refl
  starved path (Node.dir removable ns) (suc fds) (b, p) l =
      rw (starved_all path ns fds p (omega (arith, l))) refl

  starved_all :
      (path : ℕ) (ns : Nodes) (fds : ℕ)
      → ArePlain path ns
      → fds < dirs_all ns
      → del_all path ns fds ≡ none
  starved_all path Nodes.nil fds p l = absurd (omega (arith, l))
  starved_all path (Nodes.cons name n ns) fds (k, p, ps) l =
      let s = short (joined path name) dir_len k in
      elim (Bool-cases (ltb fds (dirs n))) [
        | inl t ↦ rw (s, starved (joined path name) n fds p (ground (arith, t))) refl
        | inr f ↦
            (let (m, d, gone) =
                rmdir-del_dir (joined path name) n fds (fds - dirs n) p (ground (arith, f)) in
              rw (s, d, starved_all path ns (fds - dirs n) ps (ground (arith, f, l))) refl)
      ]

-- On a tree of files and directories that can all be removed and whose paths are shorter than
-- DIR_LEN, del_dir deletes all that the directory holds, at any depth, and leaves the directory
-- itself, if as many directories can be opened as the tree has: it leaves each of them open.
-- With fewer it faults.
pub del_dir-plain :
    (path : ℕ) (removable : Bool) (ns : Nodes) (fds : ℕ)
    → ArePlain path ns
    → ((left : ℕ)
        → fds ≡ suc (dirs_all ns) + left
        → del_dir path (Node.dir removable ns) fds
          ≡ some (some (Node.dir removable Nodes.nil), left))
      × (fds ≤ dirs_all ns → del_dir path (Node.dir removable ns) fds ≡ none)
unfolding del_dir left_open
del_dir-plain path removable ns zero p = ((λ left e. absurd (omega (arith, e))), λ l. refl)
del_dir-plain path removable ns (suc fds) p = (
  λ left e. rw (del_all-plain path ns fds left p (omega (arith, e))) refl,
  λ l. rw (starved_all path ns fds p (omega (arith, l))) refl,
)

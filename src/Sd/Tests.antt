-- ===== src/Sd/Tests.antt =====
-- The card files of src/sd_file.c at concrete inputs.
use avserver.Base.{refl, ℕ, suc, ◌+◌, ◌≤◌, arith, none, ◌≡◌, pos, minus_one, true, some, [], ◌∷◌}
use avserver.Sd.{is_gt, Entry, prepare_free_space}
use avserver.Sd.Search.{is_gt_lem, prepare_free_space_lem}
use avserver.Sd.Delete.{dirs_all, Node, Nodes, del_dir, del_dir-plain}

abbrev day : Entry
day = record { name = "20150711"; first = 50; is_dir = true; number = pos 20150711 }

prepare_free_space_lem_example :
    prepare_free_space 500 (some (day ∷ day ∷ [])) (λ e h. true) (100 ∷ 600 ∷ [])
    ≡ some (minus_one, 0)
prepare_free_space_lem_example =
    prepare_free_space_lem 500 (some (day ∷ day ∷ [])) (λ e h. true) 100 (600 ∷ [])

dates_in_order : is_gt (some (pos 20150711)) (some (pos 20150712)) ≡ pos 1
dates_in_order = is_gt_lem 20150711 20150712

abbrev tree : Nodes
tree = Nodes.cons "00" (Node.dir true (Nodes.cons "a.avi" (Node.file true) Nodes.nil)) Nodes.nil

del_dir-plain_example :
    ((left : ℕ)
      → 5 ≡ suc (dirs_all tree) + left
      → del_dir 20 (Node.dir true tree) 5 ≡ some (some (Node.dir true Nodes.nil), left))
    × (5 ≤ dirs_all tree → del_dir 20 (Node.dir true tree) 5 ≡ none)
del_dir-plain_example =
    del_dir-plain 20 true tree 5 (omega arith, (refl, (omega arith, refl, tt)), tt)

three_left : del_dir 20 (Node.dir true tree) 5 ≡ some (some (Node.dir true Nodes.nil), 3)
unfolding del_dir
three_left = refl

-- ===== src/Tests/Redirects.antt =====
-- Node 1 was merged into 2, and now 2 is merged into 3.
use assistant_memory.Prelude.{◌≡◌, refl, false, some, [], ◌∷◌, contains, arith}
use assistant_memory.Redirects.{Redirect, write_node_redirects}
use assistant_memory.Redirects.Laws.{IsFlat, write_node_redirects-IsFlat}

abbrev first_merge : Redirect
first_merge = record { user_id = 1; from_node_id = 1; to_node_id = 2; partition_key = some 4 }

first_merge-IsFlat : IsFlat 1 (first_merge ∷ [])
first_merge-IsFlat = ((λ e. ((λ f same. absurd (ground arith)), tt)), tt)

apart : contains (2 ∷ []) 3 ≡ false
unfolding contains
apart = refl

write_node_redirects-IsFlat_example :
    IsFlat 1 (write_node_redirects 1 3 (2 ∷ []) (some 4) (first_merge ∷ []))
write_node_redirects-IsFlat_example =
    write_node_redirects-IsFlat 1 3 (2 ∷ []) (some 4) (first_merge ∷ []) first_merge-IsFlat apart
      ((λ e same. absurd (ground arith)), tt) ((λ e inside. refl), tt)

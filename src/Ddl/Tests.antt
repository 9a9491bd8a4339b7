-- ===== src/Ddl/Tests.antt =====
-- A list of three nodes, and the theorems on it.
use nt_shm.Common.{ℕ, ◌≡◌, refl, [], ◌∷◌, arith, ◌==◌, some, if◌then◌else◌}
use nt_shm.Common.Run.{fault, Returns}
use nt_shm.Ddl.{Node, Ddlh, ddl_insert, ddl_delete}
use nt_shm.Ddl.Chain.{IsList}
use nt_shm.Ddl.Append.{Appended, ddl_insert-Appended}
use nt_shm.Ddl.Delete.{ddl_delete-loses_curr}
use nt_shm.Ddl.Inner.{ddl_delete-Removed}

-- The nodes at 10, 20 and 30
abbrev three_nodes : ℕ → Node
three_nodes p =
    if p == 10
    then record { content = 1; next = 20; prev = 0 }
    else if p == 20
    then record { content = 2; next = 30; prev = 10 }
    else record { content = 3; next = 0; prev = 20 }

abbrev three : Ddlh
three = record { nodes = three_nodes; entr = 10; tail = 30; curr = 30; pos = 10; num = 3 }

three-IsList : IsList three (10 ∷ 20 ∷ 30 ∷ [])
three-IsList = record {
  chain = (refl, omega arith, refl, (refl, omega arith, refl, (refl, omega arith, refl, refl)));
  distinct = (((λ e. omega arith), ((λ e. omega arith), tt)), (((λ e. omega arith), tt), (tt, tt)));
  at_tail = refl;
  at_curr = refl;
}

ddl_insert-Appended_example :
    Returns (Appended (10 ∷ 20 ∷ 30 ∷ []) 40 4) (ddl_insert three (some 40) (some 4) 1)
ddl_insert-Appended_example =
    ddl_insert-Appended three (10 ∷ 20 ∷ 30 ∷ []) 40 4 three-IsList (omega arith)
      ((λ e. omega arith), ((λ e. omega arith), ((λ e. omega arith), tt)))

ddl_delete-Removed_example : Returns (λ after. IsList after (10 ∷ 30 ∷ [])) (ddl_delete 5 three 20)
ddl_delete-Removed_example = ddl_delete-Removed 5 three 10 20 30 [] [] three-IsList (omega arith)

ddl_delete-loses_curr_example :
    Returns (λ after. ddl_insert after (some 40) (some 4) 1 ≡ fault) (ddl_delete 5 three 30)
ddl_delete-loses_curr_example =
    ddl_delete-loses_curr 5 three 10 30 (20 ∷ []) 40 4 three-IsList (omega arith)

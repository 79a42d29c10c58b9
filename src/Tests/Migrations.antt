-- ===== src/Tests/Migrations.antt =====
-- Two migrations, of which the second fails at first.
use go_signalium.Base.{◌≡◌, refl, some, [], ◌∷◌, List, ◌++◌, ltb, true, false}
use go_signalium.Base.Text.{Text, codes, text_eq}
use go_signalium.Domain.{ok, err, unavailable}
use go_signalium.Repo.Messages.{up, down}
use go_signalium.Migrate.{
  Hasher, Sum, File, Database, pending_migrations, version_of, lookup, is_applied, apply_one,
  apply_all, run_migrations, recorded, file_of,
}
use go_signalium.Migrate.Sums.{read_atlas_sum}
use go_signalium.Migrate.Sums.Printed.{read_atlas_sum-print_sums}
use go_signalium.Migrate.Again.{run_migrations_again}

-- The checksum of a text is the text.
abbrev plain : Hasher
plain = record { State = Text; start = []; write = λ s t. s ++ t; sum = λ s. s }

abbrev files : List File
files =
    record { name = codes "1_a"; body = codes "x" }
    ∷ record { name = codes "2_b"; body = codes "y" }
    ∷ []

abbrev sums : List Sum
sums =
    record { name = codes "1_a"; hash = codes "1_ax" }
    ∷ record { name = codes "2_b"; hash = codes "1_ax2_by" }
    ∷ []

abbrev empty : Database
empty = record { revisions = []; executed = [] }

abbrev first_done : Database
first_done =
    recorded (file_of (record { name = codes "1_a"; body = codes "x" }) (codes "1") (codes "1_ax"))
      empty

abbrev both_done : Database
both_done =
    recorded
      (file_of (record { name = codes "2_b"; body = codes "y" }) (codes "2") (codes "1_ax2_by"))
      first_done

-- The second transaction fails, and the first stays.
fails_second :
    run_migrations plain sums files (λ i. elim (ltb 0 i) [ true ↦ down | false ↦ up ]) empty
    ≡ (err unavailable, first_done)
unfolding run_migrations pending_migrations apply_all apply_one version_of lookup is_applied text_eq
fails_second = refl

run_migrations_again_example :
    run_migrations plain sums files (λ i. down) both_done ≡ (ok tt, both_done)
unfolding run_migrations pending_migrations apply_all apply_one version_of lookup is_applied text_eq
run_migrations_again_example =
    run_migrations_again plain sums files (λ i. up) (λ i. down) first_done both_done refl

read_atlas_sum-print_sums_example :
    read_atlas_sum (some (codes "h1:mV+=\n1_a h1:1_ax\n2_b h1:1_ax2_by\n")) ≡ ok sums
read_atlas_sum-print_sums_example =
    read_atlas_sum-print_sums (codes "h1:mV+=") sums refl ((refl, refl), ((refl, refl), tt))

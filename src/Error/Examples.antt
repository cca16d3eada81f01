-- ===== src/Error/Examples.antt =====
-- An instance of the theorem on names, and a run of the print.
use pexec.Base.{◌≡◌, refl, codes}
use pexec.Error.{fork_error, error2string, print_perror}
use pexec.Error.Names.{error2string-injective}

fork_error_only : fork_error ≡ fork_error
fork_error_only = error2string-injective fork_error fork_error refl

fork_again :
    print_perror
      (λ _. codes "11")
      (λ _. codes "again")
      (record { pexec_error = fork_error; error_code = 11 })
    ≡ codes "FORK_ERROR, (11) again"
unfolding print_perror error2string
fork_again = refl

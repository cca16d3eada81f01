-- ===== src/ExecHelper/Examples.antt =====
-- An instance of each theorem on the helper, for the whole call of the examples of PexecSingle.
use pexec.Base.{[], ◌∷◌, ◌++◌, codes, is_empty, ◌≡◌, arith}
use pexec.Run.{done}
use pexec.System.{on_stdout}
use pexec.PexecSingle.Examples.{setting, whole_call_done}
use pexec.ExecHelper.{PexecStatus, new_status, valid, gather, exec}
use pexec.ExecHelper.Output.{written, reported, codes_of, IsText, exec_reports, gather_cut}

exec_reports_example :
    (r : PexecStatus) × (exec setting (codes "ls -l") ≡ done r)
    × (r.args ≡ codes "ls -l")
    × (codes_of r.err ≡ reported whole_call_done.0.log)
    × (valid r ≡ is_empty (reported whole_call_done.0.log))
    × (IsText whole_call_done.0.log → r.proc_out ≡ written whole_call_done.0.log)
exec_reports_example = exec_reports setting (codes "ls -l") whole_call_done.0 whole_call_done.1

gather_cut_example :
    (gather (λ log. 0) (on_stdout (codes "a" ++ 0 ∷ codes "b") ∷ []) (new_status [])).proc_out
    ≡ (gather (λ log. 0) [] (new_status [])).proc_out ++ codes "a"
gather_cut_example =
    gather_cut (λ log. 0) [] (new_status []) (codes "a") (codes "b") (omega arith, tt)

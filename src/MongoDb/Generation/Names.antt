-- ===== src/MongoDb/Generation/Names.antt =====
-- The bounds that the comment of mongoAccountNames states.
use bindings.Common.{false, true, arith, ◌<◌, ◌≤◌, Bool, String}
use bindings.MongoDb.Accounts.{account_names}
use Prim.Native.String.{count}
use text.Mathlib.TextLemmas.{length-append}

-- For a binding id of at most 31 characters, `bnd_` and a ksuid, the user's name has at most 42
-- characters and the name of the database stays under 64.
pub account_names-bounds :
    (binding_id : String) (is_staging : Bool)
    → count binding_id ≤ 31
    → (count (account_names binding_id is_staging).0 ≤ 42)
      × (count (account_names binding_id is_staging).1 < 64)
unfolding account_names
account_names-bounds binding_id true short =
    rw (length-append "cl_usr_stg_" binding_id, length-append "cl_stg_" binding_id)
      (omega arith, omega arith)
account_names-bounds binding_id false short =
    rw (length-append "cl_usr_prd_" binding_id, length-append "cl_prd_" binding_id)
      (omega arith, omega arith)

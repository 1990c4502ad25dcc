-- ===== src/Lease/Reach.antt =====
-- memory/stream_lease.py: the registries that any sequence of calls, by any processes, can leave.
use agentic_loop_template.Base.{◌≡◌, ◌≢◌, true, some, ok}
use agentic_loop_template.Base.Text.{Text}
use agentic_loop_template.Streams.Paths.{norm_rel, path_is_owned}
use agentic_loop_template.Streams.Plans.Disjoint.{AllTidy, ListsApart-owned}
use agentic_loop_template.Lease.Liveness.{System, Entry}
use agentic_loop_template.Lease.Registry.{RegistryFile, missing, load_lenient, find, owned_of}
use agentic_loop_template.Lease.Registry.Lookup.{find-In}
use agentic_loop_template.Lease.Requests.{Request, serve}
use agentic_loop_template.Lease.Exclusive.{IsExclusive, serve-IsExclusive}

-- The registry files that calls lead to from no file. Each call has its own process and its own answers of
-- the operating system.
pub data Reach : RegistryFile → Type 0 where
  start : Reach missing
  call :
      {file : RegistryFile} (sys : System) (req : Request)
      → Reach file
      → Reach (serve sys req file).1

pub Reach-IsExclusive : {file : RegistryFile} → Reach file → IsExclusive (load_lenient file)
unfolding load_lenient
Reach-IsExclusive start = λ m n e f i j ne. elim i [ ]
Reach-IsExclusive (call {file} sys req before) =
    serve-IsExclusive sys req file (Reach-IsExclusive before)

-- In a registry that calls have led to, no path is owned by the tokens of two entries of different names, if
-- no token ends in two slashes.
pub reachable_leases-disjoint :
    (file : RegistryFile)
    → Reach file
    → (m n : Text) (e f : Entry) → find m (load_lenient file) ≡ some e
    → find n (load_lenient file) ≡ some f
    → m ≢ n
    → AllTidy (owned_of e)
    → AllTidy (owned_of f)
    → (path : Text) → path_is_owned path (owned_of e) ≡ ok true
    → path_is_owned path (owned_of f) ≢ ok true
unfolding path_is_owned
reachable_leases-disjoint file reach m n e f fm fn ne te tf path owned_e owned_f =
    let apart =
      Reach-IsExclusive reach m n e f (find-In m (load_lenient file) e fm)
        (find-In n (load_lenient file) f fn) ne in
    ListsApart-owned (owned_of e) (owned_of f) (norm_rel path) apart te tf owned_e owned_f

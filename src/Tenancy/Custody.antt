-- ===== src/Tenancy/Custody.antt =====
-- services/tenancy: the owners over whole runs of the service.
use aether_edit.Prelude.{◌<◌, String, List, [], ◌∷◌}
use aether_edit.Tenancy.Directory.{Directory}
use aether_edit.Tenancy.Memberships.{count_owners}
use aether_edit.Tenancy.Service.{Server, Request, serve, serve_all}
use aether_edit.Tenancy.Follows.{Follows}
use aether_edit.Tenancy.Follows.Service.{serve-Follows}
use aether_edit.Tenancy.Owners.{Kept, IsKeyed, owners_law}
use aether_edit.Tenancy.Owners.Calls.{owners-LawfulApi, owners-LawfulSignIn}

serve-Kept : (s : Server) (q : Request) (d : Directory) → Kept d (serve s q d).1
unfolding Follows
serve-Kept s q d = serve-Follows owners_law owners-LawfulApi owners-LawfulSignIn s q d

-- Over any requests, whatever the database refuses and whatever answers are lost, and of memberships
-- with at most one row for each workspace and user: the memberships stay so, and a workspace that has
-- an owner has one at the end.
pub serve_all-count_owners :
    (s : Server) (qs : List Request) (d : Directory) (ws : String)
    → IsKeyed d
    → 0 < count_owners ws d
    → IsKeyed (serve_all s qs d) × (0 < count_owners ws (serve_all s qs d))
unfolding serve_all
serve_all-count_owners s [] d ws k h = (k, h)
serve_all-count_owners s (q ∷ qs) d ws k h =
    let kept : Kept d (serve s q d).1 = serve-Kept s q d in
    serve_all-count_owners s qs (serve s q d).1 ws (kept.keyed k) (kept.owned k ws h)

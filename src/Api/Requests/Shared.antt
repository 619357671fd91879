-- ===== src/Api/Requests/Shared.antt =====
-- A request that may last is found again by its path, until it is cleared.
use honeydipper.Common.{true, none, some, String, ◌≡◌, ◌≢◌, refl, eq_refl, str_ne}
use honeydipper.Common.Assoc.{lookup, lookup-insert, lookup-delete}
use honeydipper.Api.Requests.{
  Request, Requests, is_shared, save_request, clear_request, find_request,
}

-- A request that is shared: once it is saved, a GET for its path finds it; once it is cleared, neither
-- its path nor its UUID leads to a request any more, and no other path is touched.
pub find-clear_request :
    (uuid : String) (r : Request) (l : Requests)
    → is_shared l.write_timeout r ≡ true
    → (find_request "GET" r.url_path (save_request uuid r l) ≡ some uuid)
      × (find_request "GET" r.url_path (clear_request uuid r (save_request uuid r l)) ≡ none)
      × (lookup uuid (clear_request uuid r (save_request uuid r l)).requests ≡ none)
      × ((path : String)
          → r.url_path ≢ path
          → find_request "GET" path (clear_request uuid r (save_request uuid r l))
            ≡ find_request "GET" path l)
unfolding save_request clear_request find_request
find-clear_request uuid r l h = (
  rw (h, lookup-insert, eq_refl) refl,
  rw (h, lookup-delete, eq_refl) refl,
  rw (lookup-delete, eq_refl) refl,
  λ path ne.
      rw (h, lookup-delete, str_ne r.url_path path ne, lookup-insert, str_ne r.url_path path ne)
        refl,
)

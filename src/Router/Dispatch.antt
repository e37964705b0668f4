-- ===== src/Router/Dispatch.antt =====
-- What a route changes.
use agent_client_protocol_py.Base.{
  ◌≡◌, refl, String, string_eq, Bool, true, false, none, Json, if◌then◌else◌, ◌&&◌, ◌==◌, arith,
}
use agent_client_protocol_py.Base.Dict.{lookup-insert}
use agent_client_protocol_py.Router.{
  RouteKind, request, notification, Route, MessageRouter, add_route, handle, call, extension_name,
}

abbrev pub same_kind : RouteKind → RouteKind → Bool
same_kind request request = true
same_kind notification notification = true
same_kind _ _ = false

-- Among the methods that do not start with `_`, a route takes the calls of its own method and kind,
-- in place of an earlier route; every other call is answered as before.
pub call-add_route :
    {M W : Type 0} (route : Route M W) (self : MessageRouter M W) (method : String) (params : Json)
    (kind : RouteKind) (w : W)
    → extension_name method ≡ none
    → call (add_route route self) method params kind w ≡ (
        if same_kind route.kind kind && (method == route.method)
        then handle route params w
        else call self method params kind w)
unfolding call add_route
call-add_route route self method params kind w e = go route.kind refl kind
  where
    go :
        (k : RouteKind)
        → route.kind ≡ k
        → (j : RouteKind)
        → call (add_route route self) method params j w ≡ (
            if same_kind k j && (method == route.method)
            then handle route params w
            else call self method params j w)
    go request h request =
        ground (arith, e, h, lookup-insert method route.method route self.requests)
    go request h notification = ground (arith, e, h)
    go notification h request = ground (arith, e, h)
    go notification h notification =
        ground (arith, e, h, lookup-insert method route.method route self.notifications)

-- ===== src/Afdp/Identity.antt =====
-- internal/afdp/session.go and internal/domain/identity.go: whether the certificate of a peer names it. A
-- certificate is what is read of it: its common name and its URIs, none of which is nil, each parsed by
-- net/url.
use Prim.Native.String.{◌++◌}
use asterferry.Base.{
  Bool, false, ◌&&◌, ◌||◌, Option, none, some, List, [], ◌∷◌, String, if◌then◌else◌, ◌==◌,
  string_keyed,
}
use asterferry.Text.{trim_slash}
use asterferry.Afdp.Errors.{Error, failure}

pub record Uri : Type 0 where
  pub scheme : String
  pub host : String
  pub path : String

pub record Certificate : Type 0 where
  pub common_name : String
  pub uris : List Uri

-- A connection without a TLS state, and the certificates of one that has it, the peer's own first
pub data Peer : Type 0 where
  no_tls no_certificate : Peer
  certified : Certificate → Peer

unfoldable pub node_identity_uri : String → Uri
node_identity_uri id = record { scheme = "spiffe"; host = "asterferry"; path = "/node/" ++ id }

-- The loop over the URIs
unfoldable pub has_uri : Uri → List Uri → Bool
has_uri expected [] = false
has_uri expected (uri ∷ uris) =
    (uri.scheme == expected.scheme
      && uri.host == expected.host
      && trim_slash uri.path == expected.path)
    || has_uri expected uris

unfoldable pub authorize_peer_identity : Peer → String → Option Error
authorize_peer_identity no_tls id = none
authorize_peer_identity no_certificate id = some (failure "AFDP peer certificate is missing")
authorize_peer_identity (certified certificate) id =
    if certificate.common_name == id || has_uri (node_identity_uri id) certificate.uris
    then none
    else some (failure "AFDP peer certificate identity does not match agent")

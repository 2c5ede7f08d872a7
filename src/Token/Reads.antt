-- ===== src/Token/Reads.antt =====
-- token.go: the tables during the issue of a token.
use identity_hub.Base.{Bytes, List, Option, is_empty, none, some}
use identity_hub.World.{Error, Tables, signing}
use identity_hub.World.Keeps.{
  Keeps, bind-Keeps, fail-Keeps, if-Keeps, now-Keeps, pure-Keeps, read_random-Keeps,
}
use identity_hub.Token.{Service, issue_for_audience_with, issue_for_session, or_fail}

or_fail-Keeps : {B : Type 0} {f : Tables → B} (e : Error) (o : Option Bytes) → Keeps f (or_fail e o)
unfolding or_fail
or_fail-Keeps e none = fail-Keeps e
or_fail-Keeps e (some raw) = pure-Keeps raw

module _ {B : Type 0} {f : Tables → B} where
  with-Keeps :
      (s : Service) (subject : Bytes) (roles : List Bytes) (permissions : Option (List Bytes))
      (session_id audience : Bytes)
      → Keeps f (issue_for_audience_with s subject roles permissions session_id audience)
  unfolding issue_for_audience_with
  with-Keeps s subject roles permissions session_id audience =
      if-Keeps (is_empty subject) (fail-Keeps signing)
        (bind-Keeps read_random-Keeps λ raw. bind-Keeps now-Keeps λ at. or_fail-Keeps signing _)

  pub issue_for_session-Keeps :
      (s : Service) (subject : Bytes) (roles : List Bytes) (session_id : Bytes)
      → Keeps f (issue_for_session s subject roles session_id)
  unfolding issue_for_session
  issue_for_session-Keeps s subject roles session_id =
      if-Keeps (is_empty session_id) (fail-Keeps signing)
        (with-Keeps s subject roles none session_id s.audience)

-- ===== src/Rtmp/Connection/Closing.antt =====
-- What the end of a connection does to the registry of sources.
use omega_streamer.Prelude.{
  ℕ, ◌≡◌, ◌∙◌, ap, refl, Bool, true, false, none, List, if◌then◌else◌, ◌&&◌, not,
}
use omega_streamer.Media.MediaSourceMgr.{MediaSourceMgr, make_key, lookup, remove}
use omega_streamer.Media.MediaSourceMgr.Registry.{IsUnique, IsUnique-Registered}
use omega_streamer.Prelude.Strings.{same_string}
use omega_streamer.Rtmp.Amf0.Decoder.{is_empty}
use omega_streamer.Rtmp.Connection.{RtmpConnection, is_publisher, on_close, close}

-- The connection publishes a stream that has a name and an app.
abbrev pub publishes : RtmpConnection → Bool
publishes c =
    is_publisher c.context.role
    && (not (is_empty c.context.app) && not (is_empty c.context.stream_name))

-- What closing promises of a connection, for whatever key of the registry.
pub record Closes (c : RtmpConnection) (key : List ℕ) : Type 0 where
  pub is_closed : (close c).closed ≡ true
  pub once : close (close c) ≡ close c
  pub unique : IsUnique (close c).registry.sources
  pub registered : lookup (close c).registry.sources key ≡ (
      if (not c.closed && publishes c)
        && same_string (make_key c.context.app c.context.stream_name) key
      then none
      else lookup c.registry.sources key)

closed-close : (c : RtmpConnection) (b : Bool) → c.closed ≡ b → (close c).closed ≡ true
unfolding close on_close
closed-close c true e =
    ap (λ b. (if b then c else on_close (record c { closed = true })).closed) e ∙ e
closed-close c false e = ap (λ b. (if b then c else on_close (record c { closed = true })).closed) e

module _ (c : RtmpConnection) (key : List ℕ) (u : IsUnique c.registry.sources) where
  removed : Bool → MediaSourceMgr
  removed b = if b then remove c.registry c.context.app c.context.stream_name else c.registry

  removed-IsUnique : (b : Bool) → IsUnique (removed b).sources
  unfolding removed
  removed-IsUnique true =
      (IsUnique-Registered c.registry c.context.app c.context.stream_name key u).removed_unique
  removed-IsUnique false = u

  lookup-removed :
      (b : Bool)
      → lookup (removed b).sources key ≡ (
          if b && same_string (make_key c.context.app c.context.stream_name) key
          then none
          else lookup c.registry.sources key)
  unfolding removed
  lookup-removed true =
      (IsUnique-Registered c.registry c.context.app c.context.stream_name key u).removed_others
  lookup-removed false = refl

  -- The registry of a connection that is closed already, or not.
  closed_registry : Bool → MediaSourceMgr
  closed_registry b = (if b then c else on_close (record c { closed = true })).registry

  closed_registry-IsUnique : (b : Bool) → IsUnique (closed_registry b).sources
  unfolding closed_registry on_close removed
  closed_registry-IsUnique true = u
  closed_registry-IsUnique false = removed-IsUnique (publishes c)

  lookup-closed_registry :
      (b : Bool)
      → lookup (closed_registry b).sources key ≡ (
          if (not b && publishes c)
            && same_string (make_key c.context.app c.context.stream_name) key
          then none
          else lookup c.registry.sources key)
  unfolding closed_registry on_close removed
  lookup-closed_registry true = refl
  lookup-closed_registry false = lookup-removed (publishes c)

-- In a registry in which each key stands once, closing a connection that is open and publishes a stream
-- with a name removes the stream's key; closing another connection, or one that is closed, changes no
-- key, and no other key changes in any case. Each key still stands once, the connection is closed, and
-- closing it again changes nothing.
pub close-Closes : (c : RtmpConnection) (key : List ℕ) → IsUnique c.registry.sources → Closes c key
unfolding close closed_registry
close-Closes c key u =
    let shut = closed-close c c.closed refl in
    record {
      is_closed = shut;
      once = ap (λ b. if b then close c else on_close (record (close c) { closed = true })) shut;
      unique = closed_registry-IsUnique c key u c.closed;
      registered = lookup-closed_registry c key u c.closed;
    }

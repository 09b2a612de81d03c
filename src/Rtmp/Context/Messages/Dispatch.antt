-- ===== src/Rtmp/Context/Messages/Dispatch.antt =====
-- An AMF0 command that a client encodes reaches its handler.
use omega_streamer.Prelude.{
  ℕ, ◌<◌, ◌^◌, ◌≡◌, ◌∙◌, refl, sym, ap, subst, List, [], ◌∷◌, length, arith,
}
use omega_streamer.Rtmp.Header.{RtmpMessage}
use omega_streamer.Rtmp.Amf0.{Amf0Value, as_string, as_number, value_or}
use omega_streamer.Prelude.Strings.{same_string}
use omega_streamer.Rtmp.Amf0.RoundTrip.{text, double}
use omega_streamer.Rtmp.Amf0.Reads.{Stands}
use omega_streamer.Rtmp.Amf0.Sequence.{
  Item, scalar, encode_items, item_value, items_bytes, IsItem, decode-item, encode_items-appends,
}
use omega_streamer.Rtmp.Text.{text_connect, text_create_stream, text_publish, text_play}
use omega_streamer.Rtmp.Context.{RtmpContext}
use omega_streamer.Rtmp.Context.Commands.{
  next_value, command, with_transaction, with_name, handle_amf0_command, connect_arguments,
  app_from_url, handle_connect, handle_create_stream, handle_publish, handle_play,
}

-- The next value is the item that the encoder wrote next.
record TakesItem (m : List ℕ) (pos : ℕ) (v : Amf0Value) (l : List ℕ) : Type 0 where
  end : ℕ
  done : next_value m pos ≡ (v, end)
  stands : Stands m end l

next_value-item :
    (m : List ℕ) {pos : ℕ} (is : List Item) (i : Item)
    → IsItem i
    → Stands m pos (items_bytes (i ∷ is))
    → TakesItem m pos (item_value i) (items_bytes is)
unfolding next_value value_or items_bytes
next_value-item m is i ok st =
    let d = decode-item m (items_bytes is) i ok st in
    record { end = d.end; done = rw d.done refl; stands = d.stands }

start-Stands : (is : List Item) → Stands (encode_items [] is) 0 (items_bytes is)
start-Stands is = record { inside = omega arith; left = encode_items-appends [] is }

-- A command's name and transaction id are taken off its front.
module _ (ctx : RtmpContext) (msg : RtmpMessage) (name : List ℕ) (txn_id : ℕ) (args : List Item)
    (encoded : msg.payload ≡ encode_items [] (scalar (text name) ∷ scalar (double txn_id) ∷ args))
    (named : length name < 65536) (numbered : txn_id < 2 ^ 64) where
  record Reached : Type 0 where
    at_pos : ℕ
    reached : handle_amf0_command ctx msg ≡ command ctx msg.payload name txn_id at_pos
    left : Stands msg.payload at_pos (items_bytes args)

  handle_amf0_command-Reached : Reached
  unfolding handle_amf0_command with_name with_transaction as_string as_number
  handle_amf0_command-Reached =
      let is = scalar (text name) ∷ scalar (double txn_id) ∷ args in
      let st : Stands msg.payload 0 (items_bytes is) =
        subst (λ p. Stands p 0 (items_bytes is)) (sym encoded) (start-Stands is) in
      let n =
        next_value-item msg.payload (scalar (double txn_id) ∷ args) (scalar (text name)) named st in
      let t = next_value-item msg.payload args (scalar (double txn_id)) numbered n.stands in
      record { at_pos = t.end; reached = rw (n.done, t.done) refl; left = t.stands }

module _ (ctx : RtmpContext) (msg : RtmpMessage) (txn_id : ℕ) (numbered : txn_id < 2 ^ 64) where
  pub handle_amf0_command-create_stream :
      (args : List Item)
      → msg.payload
        ≡ encode_items [] (scalar (text text_create_stream) ∷ scalar (double txn_id) ∷ args)
      → handle_amf0_command ctx msg ≡ handle_create_stream ctx txn_id
  unfolding command same_string
  handle_amf0_command-create_stream args e =
      (handle_amf0_command-Reached ctx msg text_create_stream txn_id args e (omega arith)
        numbered).reached

  -- connect with its argument, the next value.
  pub handle_amf0_command-connect :
      (argument : Item) (args : List Item)
      → IsItem argument
      → msg.payload
        ≡ encode_items [] (scalar (text text_connect) ∷ scalar (double txn_id) ∷ argument ∷ args)
      → handle_amf0_command ctx msg
        ≡ handle_connect (app_from_url (connect_arguments ctx (item_value argument))) txn_id
  unfolding command same_string
  handle_amf0_command-connect argument args ok e =
      let r =
        handle_amf0_command-Reached ctx msg text_connect txn_id (argument ∷ args) e (omega arith)
          numbered in
      let a = next_value-item msg.payload args argument ok r.left in
      r.reached ∙ ap (λ v. handle_connect (app_from_url (connect_arguments ctx v.0)) txn_id) a.done

  -- The stream's name behind a value that is passed over.
  named_stream :
      (m : List ℕ) {pos : ℕ} (skipped : Item) (stream : List ℕ) (args : List Item)
      → IsItem skipped
      → length stream < 65536
      → Stands m pos (items_bytes (skipped ∷ scalar (text stream) ∷ args))
      → value_or [] (as_string (next_value m (next_value m pos).1).0) ≡ stream
  unfolding value_or as_string
  named_stream m skipped stream args ok h st =
      let a = next_value-item m (scalar (text stream) ∷ args) skipped ok st in
      let b = next_value-item m args (scalar (text stream)) h a.stands in rw (a.done, b.done) refl

  pub handle_amf0_command-publish :
      (skipped : Item) (stream : List ℕ) (args : List Item)
      → IsItem skipped
      → length stream < 65536
      → msg.payload
        ≡ encode_items [] (
            scalar (text text_publish)
            ∷ scalar (double txn_id)
            ∷ skipped
            ∷ scalar (text stream)
            ∷ args)
      → handle_amf0_command ctx msg ≡ handle_publish ctx stream
  unfolding command same_string
  handle_amf0_command-publish skipped stream args ok h e =
      let r =
        handle_amf0_command-Reached ctx msg text_publish txn_id
          (skipped ∷ scalar (text stream) ∷ args) e (omega arith) numbered in
      r.reached ∙ ap (handle_publish ctx) (named_stream msg.payload skipped stream args ok h r.left)

  handle_amf0_command-play :
      (skipped : Item) (stream : List ℕ) (args : List Item)
      → IsItem skipped
      → length stream < 65536
      → msg.payload
        ≡ encode_items [] (
            scalar (text text_play)
            ∷ scalar (double txn_id)
            ∷ skipped
            ∷ scalar (text stream)
            ∷ args)
      → handle_amf0_command ctx msg ≡ handle_play ctx stream
  unfolding command same_string
  handle_amf0_command-play skipped stream args ok h e =
      let r =
        handle_amf0_command-Reached ctx msg text_play txn_id (skipped ∷ scalar (text stream) ∷ args)
          e (omega arith) numbered in
      r.reached ∙ ap (handle_play ctx) (named_stream msg.payload skipped stream args ok h r.left)

-- The message with these items for its payload.
abbrev pub with_items : RtmpMessage → List Item → RtmpMessage
with_items msg is = record msg { payload = encode_items [] is }

-- A createStream, publish or play command that a client encodes, with a 64-bit transaction id, is
-- handled by its handler: createStream with the transaction id, publish and play with the stream's
-- name of fewer than 65536 bytes, which stands behind one value of any kind; whatever follows.
pub handle_amf0_command-routes :
    (ctx : RtmpContext) (msg : RtmpMessage) (txn_id : ℕ) (skipped : Item) (stream : List ℕ)
    (args : List Item)
    → txn_id < 2 ^ 64
    → IsItem skipped
    → length stream < 65536
    → (handle_amf0_command ctx
          (with_items msg (scalar (text text_create_stream) ∷ scalar (double txn_id) ∷ args))
        ≡ handle_create_stream ctx txn_id)
      × (handle_amf0_command ctx (
            with_items msg (
              scalar (text text_publish)
              ∷ scalar (double txn_id)
              ∷ skipped
              ∷ scalar (text stream)
              ∷ args))
          ≡ handle_publish ctx stream)
      × (handle_amf0_command ctx (
            with_items msg (
              scalar (text text_play)
              ∷ scalar (double txn_id)
              ∷ skipped
              ∷ scalar (text stream)
              ∷ args))
          ≡ handle_play ctx stream)
handle_amf0_command-routes ctx msg txn_id skipped stream args numbered ok short = (
  handle_amf0_command-create_stream ctx _ txn_id numbered args refl,
  handle_amf0_command-publish ctx _ txn_id numbered skipped stream args ok short refl,
  handle_amf0_command-play ctx _ txn_id numbered skipped stream args ok short refl,
)

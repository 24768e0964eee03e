-- ===== src/Delivery/Review.antt =====
-- delivery/domain/review.py. `hashlib.sha256(body.encode()).hexdigest()` is the parameter
-- `sha256` of what uses it; texts are compared by code points, as Python does.
use Prim.Native.String.{compare, ◌++◌}
use text.Mathlib.Text.{is_lt}
use dev_workflow_automation.Common.{
  Bool, true, false, not, ◌&&◌, Option, none, some, if◌then◌else◌, List, String, str_eq, eq_iff,
  any, any-eq_true, and-eq_true, if-eq_true, In, ◌≡◌, ◌≢◌, arith,
}

pub record ReviewMessage : Type 0 where
  pub source : String
  pub source_id : String
  pub actor_id : String
  pub head_sha : String
  pub body : String
  pub updated_at : String

abbrev pub message_key : ReviewMessage → String
message_key m = m.source ++ (":" ++ m.source_id)

pub record ReviewedMessage : Type 0 where
  pub key : String
  pub actor_id : String
  pub head_sha : String
  pub digest : String
  pub updated_at : String
  pub decision : String

-- `a > b` on texts.
abbrev pub later : String → String → Bool
later a b = is_lt (compare b a)

module _ (sha256 : String → String) where
  unfoldable pub matches : ReviewedMessage → ReviewMessage → Bool
  matches r m =
      str_eq r.key (message_key m)
      && str_eq r.actor_id m.actor_id
      && str_eq r.head_sha m.head_sha
      && str_eq r.digest (sha256 m.body)
      && str_eq r.updated_at m.updated_at

  -- `saved is not None and saved.decision == "NEEDS_CLASSIFICATION"`
  abbrev pub is_unclassified : Option ReviewedMessage → Bool
  is_unclassified none = false
  is_unclassified (some saved) = str_eq saved.decision "NEEDS_CLASSIFICATION"

  abbrev approves : ReviewMessage → ReviewedMessage → Bool
  approves newer r = str_eq r.decision "APPROVAL_INTERPRETED" && matches r newer

  supersedes : ReviewMessage → List ReviewedMessage → ReviewMessage → Bool
  supersedes message reviewed newer =
      not (str_eq (message_key newer) (message_key message))
      && str_eq newer.source message.source
      && str_eq newer.actor_id message.actor_id
      && str_eq newer.head_sha message.head_sha
      && str_eq newer.body message.body
      && later newer.updated_at message.updated_at
      && any (approves newer) reviewed

  unfoldable pub resolved_duplicate :
      ReviewMessage → Option ReviewedMessage → List ReviewMessage → List ReviewedMessage → Bool
  unfolding supersedes
  resolved_duplicate message saved live_messages reviewed =
      if is_unclassified saved then any (supersedes message reviewed) live_messages else false

  -- What a saved approval says of the message that it settles.
  pub record Settles (message : ReviewMessage) (r : ReviewedMessage) : Type 0 where
    pub approved : r.decision ≡ "APPROVAL_INTERPRETED"
    pub same_actor : r.actor_id ≡ message.actor_id
    pub same_sha : r.head_sha ≡ message.head_sha
    pub same_text : r.digest ≡ sha256 message.body
    pub newer : later r.updated_at message.updated_at ≡ true
    pub other_message : r.key ≢ message_key message

  settles :
      (message newer : ReviewMessage) (r : ReviewedMessage)
      → not (str_eq (message_key newer) (message_key message)) ≡ true
      → str_eq newer.actor_id message.actor_id ≡ true
      → str_eq newer.head_sha message.head_sha ≡ true
      → str_eq newer.body message.body ≡ true
      → later newer.updated_at message.updated_at ≡ true
      → approves newer r ≡ true
      → Settles message r
  unfolding matches
  settles message newer r key actor sha body time ok = ground (
    arith,
    eq_iff r.decision "APPROVAL_INTERPRETED",
    eq_iff r.key (message_key newer),
    eq_iff (message_key newer) (message_key message),
    eq_iff r.actor_id newer.actor_id,
    eq_iff newer.actor_id message.actor_id,
    eq_iff r.head_sha newer.head_sha,
    eq_iff newer.head_sha message.head_sha,
    eq_iff r.digest (sha256 newer.body),
    eq_iff newer.body message.body,
    eq_iff r.updated_at newer.updated_at,
  )

  -- A duplicate is dropped only if it still awaits its classification and a reviewed message,
  -- other than it, is a recorded approval by the same actor, of the same commit, whose digest is
  -- that of the same text, with a later time, and the approval is still among the live messages.
  pub resolved_duplicate_settled :
      (message : ReviewMessage) (saved : Option ReviewedMessage)
      (live_messages : List ReviewMessage) (reviewed : List ReviewedMessage)
      → resolved_duplicate message saved live_messages reviewed ≡ true
      → (is_unclassified saved ≡ true)
        × (newer : ReviewMessage) × In newer live_messages
        × (r : ReviewedMessage) × In r reviewed
        × (matches r newer ≡ true)
        × Settles message r
  unfolding resolved_duplicate
  resolved_duplicate_settled message saved live_messages reviewed h =
      let (open_still, found) = if-eq_true (is_unclassified saved) _ h in
      let (newer, live, holds) = any-eq_true (supersedes message reviewed) live_messages found in
      let (rest, approved) = and-eq_true _ _ holds in
      let (rest, time) = and-eq_true _ _ rest in
      let (rest, body) = and-eq_true _ _ rest in
      let (rest, sha) = and-eq_true _ _ rest in
      let (rest, actor) = and-eq_true _ _ rest in
      let (key, _) = and-eq_true _ _ rest in
      let (r, place, ok) = any-eq_true (approves newer) reviewed approved in
      (
        open_still,
        newer,
        live,
        r,
        place,
        (and-eq_true _ _ ok).1,
        settles message newer r key actor sha body time ok,
      )

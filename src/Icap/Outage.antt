-- ===== src/Icap/Outage.antt =====
-- A scan of a message while the service is down.
use python_yamp.Prelude.{
  String, ◌≡◌, refl, false, Option, none, some, List, [], ◌∷◌, ◌++◌, All, char_eq, nat_eq,
  string_eq, option_eq, pair_eq, int_eq,
}
use python_yamp.Prelude.Dict.{get}
use python_yamp.Json.{Message}
use python_yamp.Filters.{Outcome, block, fail_closed, Context}
use python_yamp.Filters.Interests.{message_context, context_message}
use python_yamp.Callout.{
  Bytes, Codec, Reply, CalloutClient, content_digest, resolved_kind, failed, VerdictCache, cached,
  Scanned, scan,
}
use python_yamp.Callout.Scans.{Failed, Down, scan_down}
use python_yamp.Content.{Block, blocks}
use python_yamp.Icap.{
  block_payload, Progress, Ended, take_verdict, scan_block, scan_blocks, scan_message,
}

-- a block without a payload of its own, such as a link
abbrev pub Empty : Codec → Block → Type 0
Empty codec b = block_payload codec b ≡ some none

-- the message is refused, and not quarantined
abbrev pub Refused : Option Outcome → Type 0
Refused outcome = (response : Message) × (outcome ≡ some (block response false))

module _ {T : Type 0} (codec : Codec) (ask : T → Message → Reply × T) (client : CalloutClient) where
  take_verdict-Refused :
      (message : Message) (b : Block) (p : Progress T) (s : Scanned T)
      (later : Progress T → Ended T)
      → client.failure_policy ≡ fail_closed
      → Failed client.failure_policy s.verdict
      → Refused (take_verdict codec ask client message b p s later).outcome
  unfolding take_verdict failed resolved_kind get
  take_verdict-Refused message b p s later closed_ (reason, same) = rw (same, closed_) (_, refl)

  scan_blocks-Refused :
      (message context : Message) (links rest : List Block) (b : Block) (content : Bytes)
      (p : Progress T)
      → client.failure_policy ≡ fail_closed
      → Down codec ask client
      → All (Empty codec) links
      → block_payload codec b ≡ some (some content)
      → cached p.cache (content_digest codec content) ≡ none
      → Refused (scan_blocks codec ask client message context (links ++ (b ∷ rest)) p).outcome
  unfolding scan_blocks scan_block
  scan_blocks-Refused message context [] rest b content p closed_ down empty held unseen = rw held (
      take_verdict-Refused message b p (scan codec ask client context content p.cache p.service)
        (scan_blocks codec ask client message context rest) closed_
        (scan_down codec ask client context content p.cache p.service down unseen))
  scan_blocks-Refused message context (l ∷ links) rest b content p closed_ down empty held unseen =
      rw empty.0 (
        scan_blocks-Refused message context links rest b content p closed_ down empty.1 held unseen)

  -- While the service is down, a client that fails closed lets no message through that has a payload to
  -- scan, behind however many links: it is refused, unless a verdict for that payload is held already.
  pub scan_message-Refused :
      (message : Message) (direction : String) (context : Context) (links rest : List Block)
      (b : Block) (content : Bytes) (service : T) (cache : Option VerdictCache)
      → client.failure_policy ≡ fail_closed
      → Down codec ask client
      → message_context codec message direction ≡ some context
      → blocks codec message ≡ some (links ++ (b ∷ rest))
      → All (Empty codec) links
      → block_payload codec b ≡ some (some content)
      → cached cache (content_digest codec content) ≡ none
      → Refused (scan_message codec ask client message direction service cache).outcome
  unfolding scan_message
  scan_message-Refused message direction context links rest b content service cache closed_ down
        told listed empty held unseen =
      rw (told, listed)
        (scan_blocks-Refused message (context_message context) links rest b content _ closed_ down
          empty held unseen)

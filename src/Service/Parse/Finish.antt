-- ===== src/Service/Parse/Finish.antt =====
-- finishParse of internal/service/parser.go and its settle check, and a job whose shard is taken.
use Prim.Native.String.{String}
use lybrix.Base.{
  ℕ, ◌+◌, ◌≤◌, ◌≡◌, refl, Bool, false, not, ◌&&◌, none, some, List, [], ◌∷◌, ◌++◌, arith, any_of,
  ◌==◌, if◌then◌else◌, count_if,
}
use lybrix.Queue.Sends.{Message, send_all-accepted}
use lybrix.Store.Rows.{Document, Shard, Tables, update_where, at_key, of_doc}
use lybrix.Store.Documents.{find_document-update, get_document}
use lybrix.Store.Shards.{Parsed, claim_shard, claimable, mark_shard_done, finished, find_shard}
use lybrix.Store.Settling.{rows_of, unsettled_rows, book_settled_iff}
use lybrix.Store.Counters.Claims.{Exact, mark_done-Completed, settled}
use lybrix.Store.Counters.Lists.{count_if-update_where, count_if-zero, count_if-ext, count_if_mono}
use lybrix.Service.World.{World, Job, sending}
use lybrix.Service.Parse.{Settings, Backend, embed_job, settled_after_done, finish_parse}
use lybrix.Service.Parse.Handle.{handle_parse}

-- What MarkShardDone does to the rows of a document, where the key holds one open shard.
rows_after_done :
    (now doc_id idx : ℕ) (r : Parsed) (t : Tables)
    → count_if (at_key doc_id idx) t.shards ≡ 1
    → count_if (λ s. at_key doc_id idx s && settled s) t.shards ≡ 0
    → let after = (mark_shard_done now doc_id idx r t).shards in
      (rows_of doc_id after ≡ rows_of doc_id t.shards)
      × (unsettled_rows doc_id after + 1 ≡ unsettled_rows doc_id t.shards)
unfolding mark_shard_done
rows_after_done now doc_id idx r t one fresh = go t.shards one fresh
  where
    go :
        (ss : List Shard)
        → count_if (at_key doc_id idx) ss ≡ 1
        → count_if (λ s. at_key doc_id idx s && settled s) ss ≡ 0
        → let after = update_where (at_key doc_id idx) (finished now r) ss in
          (rows_of doc_id after ≡ rows_of doc_id ss)
          × (unsettled_rows doc_id after + 1 ≡ unsettled_rows doc_id ss)
    go ss one fresh =
        let at = at_key doc_id idx in
        let open_row = λ (s : Shard). of_doc doc_id s && not (settled s) in
        (
          omega (
            arith,
            count_if-update_where at (of_doc doc_id) (finished now r) ss,
            count_if-ext (λ s. at s && of_doc doc_id s)
                (λ s. at s && of_doc doc_id (finished now r s)) ss (λ s. refl),
          ),
          omega (
            arith,
            one,
            fresh,
            count_if-update_where at open_row (finished now r) ss,
            count_if-zero (λ s. at s && open_row (finished now r s)) ss (λ s. ground arith),
            split_count ss,
          ),
        )
      where
        split_count :
            (ss : List Shard)
            → count_if (at_key doc_id idx) ss
              ≡ count_if (λ s. at_key doc_id idx s && (of_doc doc_id s && not (settled s))) ss
                + count_if (λ s. at_key doc_id idx s && settled s) ss
        split_count [] = omega arith
        split_count (s ∷ ss) = ground (arith, split_count ss)

-- The settle check after MarkShardDone holds precisely if the shard was the last open one.
settled_after_iff :
    (now doc_id idx : ℕ) (r : Parsed) (t : Tables) (d : Document)
    → get_document doc_id t ≡ some d
    → Exact t.shards d
    → d.total_shards ≡ some (rows_of doc_id t.shards)
    → count_if (at_key doc_id idx) t.shards ≡ 1
    → count_if (λ s. at_key doc_id idx s && settled s) t.shards ≡ 0
    → settled_after_done (get_document doc_id (mark_shard_done now doc_id idx r t))
      ≡ (unsettled_rows doc_id t.shards == 1)
unfolding get_document mark_shard_done
settled_after_iff now doc_id idx r t d found x total one fresh =
    let bump = λ (d : Document). record d { shards_done = d.shards_done + 1; updated_at = now } in
    let (same, found') = find_document-update doc_id bump t.documents d (λ e. refl) found in
    let after = update_where (at_key doc_id idx) (finished now r) t.shards in
    let (as_many, one_less) = rows_after_done now doc_id idx r t one fresh in
    let exact : Exact after (bump d) =
      ground (arith, same, x, mark_done-Completed now doc_id idx r d.id t one fresh) in
    let counted : d.total_shards ≡ some (rows_of d.id after) =
      ground (arith, same, total, as_many) in
    let some_row : 1 ≤ rows_of d.id after = ground (
      arith,
      same,
      as_many,
      one,
      count_if_mono (at_key doc_id idx) (of_doc doc_id) t.shards (λ s. ground arith),
    ) in
    rw found'
      (ground (arith, same, one_less, book_settled_iff after (bump d) exact counted some_row))

-- With exact counters and a total that counts the document's rows, finishing an open shard whose
-- key is unique sends the embed job precisely if it was the document's last open shard, and, where
-- the streams take the job, reports no error.
pub finish_parse_sends :
    (refused : Message → Bool) (now doc_id idx : ℕ) (r : Parsed) (w : World) (d : Document)
    → get_document doc_id w.tables ≡ some d
    → Exact w.tables.shards d
    → d.total_shards ≡ some (rows_of doc_id w.tables.shards)
    → count_if (at_key doc_id idx) w.tables.shards ≡ 1
    → count_if (λ s. at_key doc_id idx s && settled s) w.tables.shards ≡ 0
    → refused (embed_job doc_id) ≡ false
    → finish_parse refused now doc_id idx r w ≡ (
      record {
        tables = mark_shard_done now doc_id idx r w.tables;
        sent =
            w.sent
            ++ (if unsettled_rows doc_id w.tables.shards == 1 then embed_job doc_id ∷ [] else []);
      },
      none,
    )
unfolding finish_parse sending
finish_parse_sends refused now doc_id idx r w d found x total one fresh up =
    rw (settled_after_iff now doc_id idx r w.tables d found x total one fresh) (
      rw
        (send_all-accepted refused
          (if unsettled_rows doc_id w.tables.shards == 1 then embed_job doc_id ∷ [] else []) w.sent
          (ground (arith, up)))
        refl)

update_where_none :
    {A : Type 0} (p : A → Bool) (f : A → A) (xs : List A)
    → any_of p xs ≡ false
    → update_where p f xs ≡ xs
update_where_none p f [] h = refl
update_where_none p f (x ∷ xs) h = ground (arith, h, update_where_none p f xs)

find_shard-none :
    (p : Shard → Bool) (ss : List Shard) → any_of p ss ≡ false → find_shard p ss ≡ none
unfolding find_shard
find_shard-none p [] h = refl
find_shard-none p (s ∷ ss) h = ground (arith, h, find_shard-none p ss)

-- A parse job whose shard is neither pending nor failed changes nothing, sends nothing and is
-- acknowledged: a job delivered twice is parsed once.
pub handle_parse_taken :
    (refused : Message → Bool) (s : Settings) (b : Backend) (now : ℕ) (worker : String) (job : Job)
    (w : World) (doc : Document) (doc_id idx : ℕ)
    → job.doc_id ≡ some doc_id
    → job.idx ≡ some idx
    → get_document doc_id w.tables ≡ some doc
    → any_of (claimable doc.id idx) w.tables.shards ≡ false
    → handle_parse refused s b now worker job w ≡ (w, none)
unfolding handle_parse claim_shard
handle_parse_taken refused s b now worker job w doc doc_id idx named at found taken =
    rw
      (
        named,
        at,
        found,
        handle_parse,
        find_shard-none (claimable doc.id idx) w.tables.shards taken,
        update_where_none (claimable doc.id idx) _ w.tables.shards taken,
      )
      refl

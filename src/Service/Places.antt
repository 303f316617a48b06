-- ===== src/Service/Places.antt =====
-- The shard that a row stands for, and the shard that a parse job names.
use lybrix.Base.{ℕ}
use lybrix.Queue.Jobs.{ParseJob}
use lybrix.Store.Rows.{Shard}

-- The key and the pages of a shard or of a job.
abbrev pub Place : Type 0
Place = ℕ × ℕ × ℕ × ℕ

abbrev pub place_of_row : Shard → Place
place_of_row s = (s.doc_id, s.idx, s.page_start, s.page_end)

abbrev pub place_of_job : ParseJob → Place
place_of_job j = (j.doc_id, j.idx, j.page_start, j.page_end)

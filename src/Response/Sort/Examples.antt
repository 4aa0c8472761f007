-- ===== src/Response/Sort/Examples.antt =====
-- Two contexts with one id, by their titles and by their ids.
use vae_thrift.Prelude.{false}
use vae_thrift.Prelude.Int.{pos}
use vae_thrift.Prelude.Bytes.{Bytes, bytes}
use vae_thrift.Exec.{ok}
use vae_thrift.Response.Options.{SortField, desc}
use vae_thrift.Response.Sort.{Answers}

abbrev titles : Answers Bytes
titles = record {
  id_of = λ title. pos 0;
  count_of = λ title query. ok (pos 1);
  data_of = λ title query. ok title;
}

abbrev by_title : SortField
by_title = record { field = bytes "title"; count = false; direction = desc }

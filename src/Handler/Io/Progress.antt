-- ===== src/Handler/Io/Progress.antt =====
-- What the steps of a handler keep of its connection.

use fakepostmaster.Exec.{Exec}
use fakepostmaster.Exec.Keeps.{IsPreorder, Keeps, keeps_rules}
use fakepostmaster.Buffer.{BytesCrate}
use fakepostmaster.Wire.{Wire}
use fakepostmaster.Message.Header.{MessageBody}
use fakepostmaster.Message.Get.{get_request}
use fakepostmaster.Handler.Io.{
  get_raw_backend_message, get_raw_frontend_message, put_message, put_message_and_flush,
  put_request,
}
use fakepostmaster.Stream.Reader.{BufReader}
use fakepostmaster.Stream.Writer.{BufWriter}
use fakepostmaster.Stream.Writer.Keeps.{Kept, Kept-IsPreorder}
use fakepostmaster.Handler.Connection.{TcpHandler, reading, writing}
use fakepostmaster.Handler.Io.Keeps.{
  Advanced, Advanced-IsPreorder, get_request-Keeps, get_raw_frontend_message-Keeps,
  get_raw_backend_message-Keeps, put_message-Keeps, put_message_and_flush-Keeps, put_request-Keeps,
}

-- What is left to read is an end of what was; what the peer has been sent stays sent, in order; and
-- the writer's buffer stays within its capacity.
pub record Progress (h h' : TcpHandler) : Type 0 where
  pub reader : Advanced h.tcp_reader h'.tcp_reader
  pub writer : Kept h.tcp_writer h'.tcp_writer

instance abbrev pub Progress-IsPreorder : IsPreorder Progress
Progress-IsPreorder = record {
  unchanged = λ h. record {
    reader = Advanced-IsPreorder.unchanged h.tcp_reader;
    writer = Kept-IsPreorder.unchanged h.tcp_writer;
  };
  changed_twice = λ g h i p q. record {
    reader = Advanced-IsPreorder.changed_twice _ _ _ p.reader q.reader;
    writer = Kept-IsPreorder.changed_twice _ _ _ p.writer q.writer;
  };
}

module _ {ℓ} {A : Type ℓ} where
  pub reading-Keeps : (r : Exec BufReader A) → Keeps Advanced r → Keeps Progress (reading r)
  reading-Keeps r k = record {
    at =
        λ h. record { reader = k.at h.tcp_reader; writer = Kept-IsPreorder.unchanged h.tcp_writer };
  }

  pub writing-Keeps : (w : Exec BufWriter A) → Keeps Kept w → Keeps Progress (writing w)
  writing-Keeps w k = record {
    at = λ h. record {
      reader = Advanced-IsPreorder.unchanged h.tcp_reader;
      writer = k.at h.tcp_writer;
    };
  }

module _ (B : BytesCrate) where
  pub request-Keeps : Keeps Progress (reading (get_request B))
  request-Keeps = reading-Keeps (get_request B) (get_request-Keeps B)

  pub frontend-Keeps : Keeps Progress (reading (get_raw_frontend_message B))
  frontend-Keeps = reading-Keeps (get_raw_frontend_message B) (get_raw_frontend_message-Keeps B)

  pub backend-Keeps : Keeps Progress (reading (get_raw_backend_message B))
  backend-Keeps = reading-Keeps (get_raw_backend_message B) (get_raw_backend_message-Keeps B)

  module _ {A : Type 0} where
    pub put-Keeps : (m : MessageBody A) (a : A) → Keeps Progress (writing (put_message B m a))
    put-Keeps m a = writing-Keeps (put_message B m a) (put_message-Keeps B m a)

    pub put_and_flush-Keeps :
        (m : MessageBody A) (a : A) → Keeps Progress (writing (put_message_and_flush B m a))
    put_and_flush-Keeps m a =
        writing-Keeps (put_message_and_flush B m a) (put_message_and_flush-Keeps B m a)

    pub request_put-Keeps : (w : Wire A) (a : A) → Keeps Progress (writing (put_request B w a))
    request_put-Keeps w a = writing-Keeps (put_request B w a) (put_request-Keeps B w a)

pub ruleset handler_rules = (
  keeps_rules, request-Keeps, frontend-Keeps, backend-Keeps, put-Keeps, put_and_flush-Keeps,
  request_put-Keeps,
)
